-- ===== src/Cap/Tests.antt =====
-- Capabilities over a small code instead of HMAC, and the theorems on them at concrete requests.
use cspot.Base.{
  ℕ, ◌+◌, ◌*◌, ◌++◌, ◌≤◌, ◌≡◌, ◌↔◌, ◌⊎◌, refl, List, [], ◌∷◌, some, true, false, arith,
  if◌then◌else◌, Text, codes, same, replicate, length,
}
use cspot.Cap.{Capability, cap_bytes, principal, woof_cap_attenuate, woof_cap_authorized}
use cspot.Cap.Attenuate.{Weakest, woof_cap_attenuate-Weakest}
use cspot.Cap.Authorized.{Reaches, woof_cap_authorized_iff}
use cspot.Cap.Chain.{chain}
use cspot.Cap.Request.{read_sign, get_el_size_with_cap_iff, get_el_size_with_cap-zero_check}
use cspot.Cmq.Receive.{value}
use cspot.Cap.Server.{
  CapWoof, missing, holding, get_el_size, get_el_size_with_cap, read_cap, woof_is_cap_name,
}

abbrev code : ℕ → List ℕ → ℕ
code key bytes = 3 * key + length bytes + 1

-- The capability to write, 2, of the secret 5 has the permissions 3.
woof_cap_attenuate-Weakest_example :
    (c : Capability) × (woof_cap_attenuate code (chain code 5 0) 2 ≡ some c) × Weakest code 5 0 2 c
woof_cap_attenuate-Weakest_example =
    woof_cap_attenuate-Weakest code 5 0 2 (omega arith) (omega arith)

abbrev write_cap : Capability
write_cap = chain code 5 4

-- It is accepted to write and to read, not to execute; the principal capability is not accepted to read.
write_accepted : woof_cap_authorized code 5 write_cap 2 ≡ true
unfolding woof_cap_authorized chain cap_bytes
write_accepted = refl

read_accepted : woof_cap_authorized code 5 write_cap 1 ≡ true
unfolding woof_cap_authorized chain cap_bytes
read_accepted = refl

exec_refused : woof_cap_authorized code 5 write_cap 4 ≡ false
unfolding woof_cap_authorized chain cap_bytes
exec_refused = refl

principal_refused : woof_cap_authorized code 5 (principal code 5) 1 ≡ false
unfolding woof_cap_authorized cap_bytes
principal_refused = refl

woof_cap_authorized_iff_example :
    (woof_cap_authorized code 5 write_cap 1 ≡ true)
    ↔ (Reaches code 5 0 1 write_cap.check ⊎ ((32 ≤ 1) × (5 ≡ write_cap.check)))
woof_cap_authorized_iff_example = woof_cap_authorized_iff code 5 write_cap 1 (omega arith)

-- a request for the WooF "temperature", with zeros for a capability
abbrev wname : Text
wname = codes "temperature"

-- the payload, with its NUL
abbrev wbytes : List ℕ
wbytes = wname ++ (0 ∷ [])

abbrev no_rights : Capability
no_rights = record { permissions = 0; flags = 0; frame_size = 0; check = 0 }

abbrev zero_cap : List ℕ
zero_cap = replicate 16 0

abbrev all_caps : Text → CapWoof
all_caps _ = holding (principal code 5)

abbrev namespace_cap : Text → CapWoof
namespace_cap t = if same t (codes "CSPOT.CAP") then holding (principal code 5) else missing

get_el_size_with_cap_iff_example :
    (get_el_size_with_cap code some some all_caps (some zero_cap ∷ some wbytes ∷ [])
      ≡ get_el_size (some wbytes ∷ []))
    ↔ ((no_rights.check ≡ read_sign code wname 5) ⊎ (no_rights.check ≡ read_sign code wname 5))
unfolding woof_is_cap_name same read_cap value
get_el_size_with_cap_iff_example =
    get_el_size_with_cap_iff code some some all_caps zero_cap wbytes [] no_rights wname wname refl
      refl refl refl 5 5 refl refl

get_el_size_with_cap-zero_check_example :
    get_el_size_with_cap code some some namespace_cap (some zero_cap ∷ some wbytes ∷ [])
    ≡ get_el_size (some wbytes ∷ [])
unfolding woof_is_cap_name same read_cap value
get_el_size_with_cap-zero_check_example =
    get_el_size_with_cap-zero_check code some some namespace_cap zero_cap wbytes [] no_rights wname
      wname refl refl refl refl 5 refl refl refl
