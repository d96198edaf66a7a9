-- ===== src/Log/Host/Life.antt =====
-- A table from its creation on.
use cspot.Base.{ℕ, ◌<◌, ◌≡◌, ◌≢◌, refl, inl, inr, List, [], ◌∷◌, Option, none, some, arith, length}
use cspot.Log.Host.{HostList, Added, host_list_create, host_list_add, host_list_find}
use cspot.Log.Host.Add.{host_list_add-Adds, host_list_create-Holds}
use cspot.Log.Host.Holds.{Has, Holds, Finds, host_list_find-Finds}

abbrev kept : Option (HostList × Added) → Option HostList
kept none = none
kept (some (hl, r)) = some hl

-- A new table, to which the hosts are added, the last of the list first.
unfoldable pub add_all : List ℕ → Option HostList
add_all [] = some host_list_create
add_all (x ∷ xs) = elim (add_all xs) [ none ↦ none | some hl ↦ kept (host_list_add hl x) ]

add_all-Holds :
    (ids : List ℕ)
    → ((host_id : ℕ) → Has host_id ids → host_id ≢ 0)
    → length ids < 100
    → (hl : HostList) × (add_all ids ≡ some hl) × Holds hl ids
unfolding add_all
add_all-Holds [] named fits = (host_list_create, refl, host_list_create-Holds)
add_all-Holds (x ∷ xs) named fits =
    let (hl, e, holds) = add_all-Holds xs (λ j has. named j (inr has)) (omega (arith, fits)) in
    let (hl', e', holds') =
      host_list_add-Adds hl xs x holds (omega (arith, fits)) (named x (inl refl)) in
    (hl', rw (e, e') refl, holds')

-- Up to 99 host identifiers other than 0 can be added to a new table, each in a search that ends; in the
-- table that results, HostListFind of a host identifier other than 0 ends, and returns a place of it if it
-- was added and NULL if it was not.
pub host_list_find-add_all :
    (ids : List ℕ)
    → ((host_id : ℕ) → Has host_id ids → host_id ≢ 0)
    → length ids < 100
    → (hl : HostList) × (add_all ids ≡ some hl)
      × ((host_id : ℕ) → host_id ≢ 0 → Finds hl ids host_id (host_list_find hl host_id))
host_list_find-add_all ids named fits =
    let (hl, e, holds) = add_all-Holds ids named fits in
    (hl, e, λ host_id real. host_list_find-Finds hl ids host_id holds real)
