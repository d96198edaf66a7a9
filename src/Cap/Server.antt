-- ===== src/Cap/Server.antt =====
-- A server's check of a signed request: WooFProcessGetElSizewithCAP of src/net/cmq/cmq-backend.cpp, and
-- WooFIsCAPName of src/woofc-access.cpp. A message is the payloads of its frames, `none` for NULL.
use cspot.Base.{
  ℕ, ◌-◌, List, [], ◌∷◌, ◌++◌, Option, none, some, ◌||◌, ◌==◌, ltb, if◌then◌else◌, Text, codes,
  same, length, take, drop,
}
use mathlib.Core.Option.{map}
use cspot.Cap.{Capability, wcap_read, woof_cap_attenuate, woof_cap_sign}
use cspot.Cmq.Receive.{value}

-- What the server does: SendErr(-1), or it goes on with WooFProcessGetElSize of the remaining frames.
-- `past_end`: it reads bytes behind the end of a payload, since the size of a payload is not tested.
pub data Answer : Type 0 where
  send_err past_end : Answer
  get_el_size : List (Option (List ℕ)) → Answer

-- A WooF of capabilities: it cannot be opened, its last element cannot be read, or is this one.
pub data CapWoof : Type 0 where
  missing unreadable : CapWoof
  holding : Capability → CapWoof

-- the bytes before the first NUL; `none` where there is no NUL, so that a reader goes past the end
abbrev pub c_string : List ℕ → Option Text
c_string [] = none
c_string (b ∷ bs) = let rest = c_string bs in if b == 0 then some [] else map (λ t. b ∷ t) rest

-- WCAP in memory: 16 bytes, `none` where the payload has fewer
unfoldable pub read_cap : List ℕ → Option Capability
read_cap bs =
    if ltb (length bs) 16
    then none
    else some (record {
      permissions = value (take 4 bs);
      flags = value (take 2 (drop 4 bs));
      frame_size = value (take 2 (drop 6 bs));
      check = value (take 8 (drop 8 bs));
    })

-- What WooFIsCAPName returns: 1, 0 or a negative number.
pub data Verdict : Type 0 where
  is_cap is_not_cap no_name : Verdict

-- the last four bytes
abbrev pub suffix : Text → Text
suffix s = drop (length s - 4) s

-- `name_from_uri` is WooFNameFromURI, which asks the URI library.
module _ (name_from_uri : Text → Option Text) where
  -- WooFIsCAPName
  unfoldable pub woof_is_cap_name : Text → Verdict
  woof_is_cap_name uri = elim (name_from_uri uri) [
    | none ↦ no_name
    | some s ↦
        if ltb (length s) 4
        then no_name
        else if same (suffix s) (codes ".CAP") || same (suffix s) (codes ".cap")
        then is_cap
        else is_not_cap
  ]

-- the signature with a capability, or 0 where there is none
abbrev pub signature : (ℕ → List ℕ → ℕ) → Text → Option Capability → ℕ
signature hmac wname none = 0
signature hmac wname (some cap) = woof_cap_sign hmac wname cap.check

abbrev pub signer : Option Capability → Option (Option Capability)
signer none = none
signer (some cap) = some (some cap)

-- `local_name` is WooFLocalName, `cap_woof` says what WooF of capabilities has a name.
module _ (hmac : ℕ → List ℕ → ℕ) (name_from_uri local_name : Text → Option Text)
    (cap_woof : Text → CapWoof) where
  -- the capability to sign with: none if the WooF is missing, and an error otherwise
  abbrev pub attenuated : CapWoof → Option (Option Capability)
  attenuated missing = some none
  attenuated unreadable = none
  attenuated (holding principal) = signer (woof_cap_attenuate hmac principal wcap_read)

  abbrev pub decide :
      Option Capability
      → Text
      → List (Option (List ℕ))
      → Option Capability
      → Option Capability
      → Answer
  decide none wname fl new_cap_p new_cap_ns = past_end
  decide (some cap) wname fl new_cap_p new_cap_ns =
      if (cap.check == signature hmac wname new_cap_p)
        || (cap.check == signature hmac wname new_cap_ns)
      then get_el_size fl
      else send_err

  -- once the WooFs are read
  abbrev pub with_caps :
      Option Capability
      → Text
      → List (Option (List ℕ))
      → Option (Option Capability)
      → Option (Option Capability)
      → Answer
  with_caps cap wname fl none new_cap_ns = send_err
  with_caps cap wname fl (some new_cap_p) none = send_err
  with_caps cap wname fl (some new_cap_p) (some new_cap_ns) =
      decide cap wname fl new_cap_p new_cap_ns

  abbrev pub check_request :
      Option Capability → Text → List (Option (List ℕ)) → CapWoof → CapWoof → Answer
  check_request cap wname fl wf wf_ns = with_caps cap wname fl (attenuated wf) (attenuated wf_ns)

  -- without both WooFs everything is allowed
  abbrev pub open_woofs :
      Option Capability → Text → List (Option (List ℕ)) → CapWoof → CapWoof → Answer
  open_woofs cap wname fl missing missing = get_el_size fl
  open_woofs cap wname fl missing unreadable = check_request cap wname fl missing unreadable
  open_woofs cap wname fl missing (holding p) = check_request cap wname fl missing (holding p)
  open_woofs cap wname fl unreadable wf_ns = check_request cap wname fl unreadable wf_ns
  open_woofs cap wname fl (holding p) wf_ns = check_request cap wname fl (holding p) wf_ns

  -- once the local name is known
  abbrev pub at_name : Option Capability → Text → List (Option (List ℕ)) → Option Text → Answer
  at_name cap wname fl none = send_err
  at_name cap wname fl (some name) =
      open_woofs cap wname fl (cap_woof (name ++ codes ".CAP")) (cap_woof (codes "CSPOT.CAP"))

  abbrev pub use_name : Option Capability → Text → List (Option (List ℕ)) → Verdict → Answer
  use_name cap wname fl is_cap = send_err
  use_name cap wname fl no_name = send_err
  use_name cap wname fl is_not_cap = at_name cap wname fl (local_name wname)

  -- The name is read to its NUL; the capability is read only once the WooFs are.
  abbrev pub use_payloads : Option Capability → Option Text → List (Option (List ℕ)) → Answer
  use_payloads cap none fl = past_end
  use_payloads cap (some wname) fl = use_name cap wname fl (woof_is_cap_name name_from_uri wname)

  abbrev pub use_frames : Option (List ℕ) → List (Option (List ℕ)) → Answer
  use_frames none fl = send_err
  use_frames (some cap) [] = send_err
  use_frames (some cap) (none ∷ fl) = send_err
  use_frames (some cap) (some wname ∷ fl) =
      use_payloads (read_cap cap) (c_string wname) (some wname ∷ fl)

  -- WooFProcessGetElSizewithCAP
  unfoldable pub get_el_size_with_cap : List (Option (List ℕ)) → Answer
  get_el_size_with_cap [] = send_err
  get_el_size_with_cap (cframe ∷ fl) = use_frames cframe fl
