-- ===== src/Cap.antt =====
-- src/caplets/woofc-caplets.c: capabilities, which are attenuated by a chain of message authentication
-- codes and authorised from the secret of the principal capability.
pub mod Chain
pub mod Attenuate
pub mod Authorized
pub mod Server
pub mod Request
mod Tests
use Prim.Native.Nat.{bit_and}
use cspot.Base.{
  ℕ, zero, suc, ◌+◌, ◌-◌, ◌/◌, ◌^◌, List, ◌++◌, Option, none, some, Bool, true, false, ◌&&◌, ◌==◌,
  ltb, leb, if◌then◌else◌,
}
use cspot.Cmq.Packet.{low_bytes}

-- WCAP
pub record Capability : Type 0 where
  pub permissions : ℕ
  pub flags : ℕ
  pub frame_size : ℕ
  pub check : ℕ

-- WCAP_READ, WCAP_MAX_PERM and WCAP_PRINCIPAL
abbrev pub wcap_read : ℕ
wcap_read = 1

abbrev pub wcap_max_perm : ℕ
wcap_max_perm = 32

abbrev pub wcap_principal : ℕ
wcap_principal = 63

-- the capability in memory
unfoldable pub cap_bytes : Capability → List ℕ
unfolding low_bytes
cap_bytes cap =
    low_bytes 4 cap.permissions
    ++ (low_bytes 2 cap.flags ++ (low_bytes 2 cap.frame_size ++ low_bytes 8 cap.check))

-- The first of the loops of WooFCapAttenuate; the bits of a permission are at most 32, so seven rounds are
-- enough for all but the empty permissions.
unfoldable pub highest_from : ℕ → ℕ → ℕ → ℕ
highest_from zero permissions permitted = permitted
highest_from (suc fuel) permissions permitted =
    let rest = highest_from fuel permissions (permitted / 2) in
    if ltb permissions permitted then rest else permitted

-- all bits of a uint32_t but these
abbrev pub without : ℕ → ℕ → ℕ
without permissions bits = bit_and permissions (2 ^ 32 - 1 - bits)

-- `hmac` is HMAC with SHA-256, of a key and data, cut to 64 bits.
module _ (hmac : ℕ → List ℕ → ℕ) where
  -- WooFCapCheck
  abbrev pub woof_cap_check : Capability → ℕ → ℕ
  woof_cap_check cap key = hmac key (cap_bytes cap)

  -- a capability, one permission lower
  abbrev pub lowered : Capability → ℕ → Capability
  lowered cap permitted =
      let lower = record cap { permissions = without cap.permissions permitted } in
      record lower { check = woof_cap_check lower cap.check }

  -- The second loop of WooFCapAttenuate; `permitted` is at most 32 and is 0 after six rounds.
  unfoldable pub lower_from : ℕ → ℕ → ℕ → Capability → Capability
  lower_from zero perm permitted cap = cap
  lower_from (suc fuel) perm permitted cap =
      let rest = lower_from fuel perm (permitted / 2) (lowered cap permitted) in
      if ltb perm permitted then rest else cap

  -- WooFCapAttenuate where there is memory; `none` for NULL
  unfoldable pub woof_cap_attenuate : Capability → ℕ → Option Capability
  unfolding highest_from lower_from
  woof_cap_attenuate cap perm =
      if ltb cap.permissions perm
      then none
      else if perm == cap.permissions
      then some cap
      else some (
          lower_from 7 perm (highest_from 7 cap.permissions wcap_max_perm)
            (record cap { permissions = bit_and cap.permissions wcap_principal }))

  -- the capability that WooFCapAuthorized computes, one permission lower
  abbrev pub halved : Capability → Capability
  halved local =
      let lower = record local { permissions = local.permissions / 2 } in
      record lower { check = woof_cap_check lower local.check }

  -- The loop of WooFCapAuthorized, and the capability that it ends with.
  unfoldable pub search_from : ℕ → ℕ → ℕ → ℕ → Capability → Capability
  search_from zero check perm permitted local = local
  search_from (suc fuel) check perm permitted local =
      let rest = search_from fuel check perm (permitted / 2) (halved local) in
      if ltb perm permitted
      then if (check == (halved local).check) && leb perm (halved local).permissions
        then halved local
        else rest
      else local

  -- the principal capability of a secret, as WooFCapInit makes it
  abbrev pub principal : ℕ → Capability
  principal secret = record {
    permissions = wcap_principal;
    flags = 0;
    frame_size = 0;
    check = secret;
  }

  -- WooFCapAuthorized
  unfoldable pub woof_cap_authorized : ℕ → Capability → ℕ → Bool
  unfolding search_from
  woof_cap_authorized secret cap perm =
      if ltb wcap_max_perm perm
      then false
      else (search_from 7 cap.check perm wcap_max_perm (principal secret)).check == cap.check

  -- WooFCapSign
  abbrev pub woof_cap_sign : List ℕ → ℕ → ℕ
  woof_cap_sign udata key = hmac key udata
