-- ===== src/Cap/Request.antt =====
-- Which requests a server accepts.
use cspot.Base.{
  ℕ, ltb, suc, ◌≤◌, ◌<◌, ◌≡◌, ◌∙◌, ◌↔◌, ◌⊎◌, ap, refl, inl, inr, List, ◌∷◌, ◌++◌, Option, none,
  some, ◌==◌, arith, Bool-cases, Text, codes,
}
use cspot.Cap.{Capability, principal, woof_cap_attenuate}
use cspot.Cap.Attenuate.{woof_cap_attenuate-Weakest}
use cspot.Cap.Authorized.{check_of}
use cspot.Cap.Chain.{chain, rights, rights-le}
use cspot.Cap.Server
use cspot.Cap.Server.{
  CapWoof, missing, holding, Answer, get_el_size, send_err, c_string, read_cap, woof_is_cap_name,
  is_not_cap, get_el_size_with_cap,
}

module _ (hmac : ℕ → List ℕ → ℕ) where
  -- The capability to read is the fifth after the principal one.
  read-chain :
      (secret : ℕ) → woof_cap_attenuate hmac (principal hmac secret) 1 ≡ some (chain hmac secret 5)
  unfolding chain
  read-chain secret =
      let (c, e, (j, found, after, last, has, least)) =
        woof_cap_attenuate-Weakest hmac secret 0 1 (omega arith) (omega arith) in
      e ∙ ap (λ c. some c) (found ∙ ap (λ (n : ℕ). chain hmac secret n) (fifth j last has least))
    where
      fifth : (j : ℕ) → j ≤ 6 → 1 ≤ rights j → (j < 6 → rights (suc j) < 1) → j ≡ 5
      fifth j last has least = elim (Bool-cases (ltb j 5)) [
        | inl low ↦
            absurd (
              omega (arith, least (ground (arith, low)), rights-le (suc j) 5 (ground (arith, low))))
        | inr high ↦ elim (Bool-cases (j == 5)) [
          | inl same ↦ ground (arith, same)
          | inr apart ↦ absurd (omega (arith, has, rights-le 6 j (ground (arith, high, apart))))
        ]
      ]

-- the signature of a WooF's name with the capability to read that descends from a secret
abbrev pub read_sign : (ℕ → List ℕ → ℕ) → Text → ℕ → ℕ
read_sign hmac wname secret = hmac (check_of hmac secret 5) wname

-- A request whose first payload has the bytes of a capability, and whose second is a text with its NUL
-- that names a WooF other than one of capabilities.
module _ (hmac : ℕ → List ℕ → ℕ) (name_from_uri local_name : Text → Option Text)
    (cap_woof : Text → CapWoof) (cap wbytes : List ℕ) (fl : List (Option (List ℕ)))
    (request : Capability) (wname name : Text) (whole : read_cap cap ≡ some request)
    (ended : c_string wbytes ≡ some wname)
    (proper : woof_is_cap_name name_from_uri wname ≡ is_not_cap)
    (named : local_name wname ≡ some name) where
  abbrev answer : Answer
  answer = get_el_size_with_cap hmac name_from_uri local_name cap_woof (some cap ∷ some wbytes ∷ fl)

  -- Where the first payload of a request has at least the 16 bytes of a capability, the second has its NUL
  -- and names a WooF other than one of capabilities, and the WooF and the namespace have principal
  -- capabilities, WooFProcessGetElSizewithCAP serves the request exactly if its check is the signature of the WooF's name with the capability to read of one of them.
  pub get_el_size_with_cap_iff :
      (secret ns_secret : ℕ)
      → cap_woof (name ++ codes ".CAP") ≡ holding (principal hmac secret)
      → cap_woof (codes "CSPOT.CAP") ≡ holding (principal hmac ns_secret)
      → (answer ≡ get_el_size (some wbytes ∷ fl)) ↔ (
          (request.check ≡ read_sign hmac wname secret)
          ⊎ (request.check ≡ read_sign hmac wname ns_secret))
  unfolding get_el_size_with_cap
  get_el_size_with_cap_iff secret ns_secret own ns =
      let e : answer
          ≡ Server.decide hmac name_from_uri local_name cap_woof (some request) wname
              (some wbytes ∷ fl) (some (chain hmac secret 5)) (some (chain hmac ns_secret 5)) =
        rw (whole, ended, proper, named, own, ns, read-chain hmac secret, read-chain hmac ns_secret)
          refl in
      rw e (ground arith, ground arith)

  -- Where the first payload of a request has at least the 16 bytes of a capability, the second has its NUL
  -- and names a WooF other than one of capabilities, the namespace has a principal capability and the WooF
  -- has none, WooFProcessGetElSizewithCAP serves the request if its check is 0.
  pub get_el_size_with_cap-zero_check :
      (ns_secret : ℕ)
      → cap_woof (name ++ codes ".CAP") ≡ missing
      → cap_woof (codes "CSPOT.CAP") ≡ holding (principal hmac ns_secret)
      → request.check ≡ 0
      → answer ≡ get_el_size (some wbytes ∷ fl)
  unfolding get_el_size_with_cap
  get_el_size_with_cap-zero_check ns_secret own ns zero_check =
      let e : answer
          ≡ Server.decide hmac name_from_uri local_name cap_woof (some request) wname
              (some wbytes ∷ fl) none (some (chain hmac ns_secret 5)) =
        rw (whole, ended, proper, named, own, ns, read-chain hmac ns_secret) refl in
      e ∙ ground (arith, zero_check)
