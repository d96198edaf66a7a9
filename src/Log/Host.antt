-- ===== src/Log/Host.antt =====
-- src/host.c: the hosts that a global log knows, in a hash table with linear probing. The table is used
-- under the global log's lock.
pub mod Probe
pub mod Holds
pub mod Add
pub mod Life
use cspot.Base.{
  ℕ, zero, suc, ◌+◌, ◌%◌, Option, none, some, Bool, true, false, if◌then◌else◌, ◌==◌, leb, add64,
  update,
}

-- HOST
pub record Host : Type 0 where
  pub host_id : ℕ
  pub max_seen : ℕ
  pub event_horizon : ℕ

-- HOSTLIST; a pointer to a host is its place in the table
pub record HostList : Type 0 where
  pub hash : ℕ → Host
  pub hash_size : ℕ
  pub count : ℕ

-- HASHCOUNT
abbrev pub hash_count : ℕ
hash_count = 100

abbrev pub no_host : Host
no_host = record { host_id = 0; max_seen = 0; event_horizon = 0 }

-- HostListCreate, where the file can be mapped
abbrev pub host_list_create : HostList
host_list_create = record { hash = λ _. no_host; hash_size = hash_count; count = 0 }

-- The loop of HostListAdd that looks for an empty place, for at most `fuel` rounds.
unfoldable pub find_empty : ℕ → HostList → ℕ → Option ℕ
find_empty zero hl hash_id = none
find_empty (suc fuel) hl hash_id =
    let rest = find_empty fuel hl ((hash_id + 1) % hl.hash_size) in
    if (hl.hash hash_id).host_id == 0 then some hash_id else rest

-- the table with a host at an empty place
abbrev pub put_host : HostList → ℕ → ℕ → HostList
put_host hl hash_id host_id = record hl {
  hash = update hl.hash hash_id (record (hl.hash hash_id) { host_id = host_id });
  count = add64 hl.count 1;
}

-- What HostListAdd returns: 1, or -1 for a table that is full.
pub data Added : Type 0 where
  added full : Added

-- HostListAdd of a list that is not NULL; `none` where the loop does not end
unfoldable pub host_list_add : HostList → ℕ → Option (HostList × Added)
unfolding find_empty
host_list_add hl host_id =
    if leb hl.hash_size (add64 hl.count 1)
    then some (hl, full)
    else elim (find_empty hl.hash_size hl (host_id % hl.hash_size)) [
      | none ↦ none
      | some hash_id ↦ some (put_host hl hash_id host_id, added)
    ]

-- The loop of HostListFind, for at most `fuel` rounds; `none` where these are not enough, otherwise the
-- place or NULL.
unfoldable pub find_from : ℕ → HostList → ℕ → ℕ → ℕ → Option (Option ℕ)
find_from zero hl host_id start_id hash_id = none
find_from (suc fuel) hl host_id start_id hash_id =
    let next = (hash_id + 1) % hl.hash_size in
    let rest = find_from fuel hl host_id start_id next in
    if (hl.hash hash_id).host_id == host_id
    then some (some hash_id)
    else if (hl.hash hash_id).host_id == 0
    then some none
    else if next == start_id
    then some none
    else rest

-- HostListFind of a list that is not NULL
unfoldable pub host_list_find : HostList → ℕ → Option (Option ℕ)
unfolding find_from
host_list_find hl host_id =
    let start_id = host_id % hl.hash_size in find_from hl.hash_size hl host_id start_id start_id
