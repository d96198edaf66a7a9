-- ===== src/Raft/Config.antt =====
-- The configuration functions of apps/raft/raft.c.
use cspot.Base.{
  ℕ, zero, suc, ◌+◌, ◌-◌, ◌*◌, ◌/◌, ◌%◌, ◌^◌, sub64, List, [], ◌∷◌, ◌++◌, Option, none, some, Bool,
  true, false, if◌then◌else◌, ltb, leb, ◌==◌, ◌&&◌, Text, same, is_empty, length, ◌||◌, get_or,
  drop, update,
}
use cspot.Raft.State.{max_members, max_observers}

-- member_id: the index of the name, `none` for -1. `left` entries from index `i` on are searched.
member_id_from : ℕ → ℕ → Text → (ℕ → Text) → Option ℕ
member_id_from zero i woof_name member_woofs = none
member_id_from (suc left) i woof_name member_woofs =
    let rest = member_id_from left (i + 1) woof_name member_woofs in
    if same woof_name (member_woofs i) then some i else rest

unfoldable pub member_id : Text → (ℕ → Text) → Option ℕ
unfolding member_id_from
member_id woof_name member_woofs =
    member_id_from (max_members + max_observers) 0 woof_name member_woofs

-- m_id == -1 || m_id >= members
unfoldable pub not_member : Option ℕ → ℕ → Bool
not_member none members = true
not_member (some m_id) members = leb members m_id

-- `;`
abbrev pub semicolon : ℕ
semicolon = 59

-- sprintf("%d"): the decimal digits of `n` in front of `rest`; as many rounds as digits are needed
unfoldable pub show_from : ℕ → ℕ → Text → Text
show_from zero n rest = rest
show_from (suc rounds) n rest =
    let more = show_from rounds (n / 10) ((48 + n % 10) ∷ rest) in
    if ltb n 10 then (48 + n) ∷ rest else more

unfoldable pub show : ℕ → Text
show n = show_from (suc n) n []

-- the names from index `i` on, each with its `;`
unfoldable pub encode_members : ℕ → ℕ → (ℕ → Text) → Text
encode_members zero i member_woofs = []
encode_members (suc left) i member_woofs =
    member_woofs i ++ (semicolon ∷ encode_members left (i + 1) member_woofs)

-- encode_config
unfoldable pub encode_config : ℕ → (ℕ → Text) → Text
encode_config members member_woofs =
    show members ++ (semicolon ∷ encode_members members 0 member_woofs)

-- strtok(…, ";"): the tokens of a text. `word` is the token that has begun.
unfoldable pub tokens_from : Text → Text → List Text
tokens_from word [] = if is_empty word then [] else word ∷ []
tokens_from word (c ∷ s) =
    let same_token = tokens_from (word ++ (c ∷ [])) s in
    let next_token = tokens_from [] s in
    if c == semicolon then (if is_empty word then next_token else word ∷ next_token) else same_token

unfoldable pub tokens : Text → List Text
tokens s = tokens_from [] s

-- the digits of strtol(token, NULL, 10); it stops at any other character
unfoldable pub strtol_from : ℕ → Text → ℕ
strtol_from value [] = value
strtol_from value (c ∷ s) =
    let more = strtol_from (value * 10 + (c - 48)) s in if leb 48 c && leb c 57 then more else value

-- isspace
abbrev pub is_space : ℕ → Bool
is_space c = (c == 32) || (leb 9 c && leb c 13)

-- LONG_MIN and LONG_MAX, which strtol returns for numbers beyond them, as 64 bits
abbrev pub negated : ℕ → ℕ
negated value = if ltb (2 ^ 63) value then 2 ^ 63 else sub64 0 value

abbrev pub limited : ℕ → ℕ
limited value = if ltb value (2 ^ 63) then value else 2 ^ 63 - 1

-- the number behind its spaces, which may have a sign
unfoldable pub strtol_signed : ℕ → Text → ℕ
strtol_signed c s =
    if c == 45
    then negated (strtol_from 0 s)
    else if c == 43
    then limited (strtol_from 0 s)
    else limited (strtol_from 0 (c ∷ s))

-- strtol(token, NULL, 10): the 64 bits of the result
unfoldable pub strtol : Text → ℕ
strtol [] = 0
strtol (c ∷ s) = let rest = strtol s in if is_space c then rest else strtol_signed c s

-- RAFT_NAME_LENGTH, which is WOOFNAMESIZE
abbrev pub name_length : ℕ
name_length = 256

-- What decode_config does: it returns the length read, returns -1, or follows a null token. `beyond`: it
-- writes a name behind the array or one that is too long for its place, or takes a number of members
-- below 0; what the code does from there on is not modelled.
pub data Decoded : Type 0 where
  decoded : ℕ → (ℕ → Text) → ℕ → Decoded
  refused null_token beyond : Decoded

-- the loop over the member names, from index `i` on
unfoldable pub decode_members : ℕ → ℕ → List Text → ℕ → (ℕ → Text) → ℕ → Decoded
decode_members zero i rest members member_woofs len = decoded members member_woofs len
decode_members (suc left) i [] members member_woofs len = null_token
decode_members (suc left) i (token ∷ rest) members member_woofs len =
    let next =
      decode_members left (i + 1) rest members (update member_woofs i token)
        (len + length token + 1) in
    if leb (max_members + max_observers) i || leb name_length (length token) then beyond else next

unfoldable pub decode_tokens : List Text → Decoded
decode_tokens [] = null_token
decode_tokens (token ∷ rest) =
    let members = strtol token % 2 ^ 32 in
    if members == 0
    then refused
    else if leb (2 ^ 31) members
    then beyond
    else decode_members members 0 rest members (λ _. []) (length token + 1)

-- decode_config
unfoldable pub decode_config : Text → Decoded
decode_config src = decode_tokens (tokens src)

-- strcmp(s, t) <= 0
unfoldable pub at_most : Text → Text → Bool
at_most [] t = true
at_most (c ∷ s) [] = false
at_most (c ∷ s) (d ∷ t) = ltb c d || ((c == d) && at_most s t)

-- the names of the first `left` members, from index `i` on
unfoldable pub names : ℕ → ℕ → (ℕ → Text) → List Text
names zero i member_woofs = []
names (suc left) i member_woofs = member_woofs i ∷ names left (i + 1) member_woofs

-- qsort with qsort_strcmp: equal names cannot be told apart, so the result does not depend on how.
unfoldable pub insert_name : Text → List Text → List Text
insert_name name [] = name ∷ []
insert_name name (other ∷ rest) =
    if at_most name other then name ∷ other ∷ rest else other ∷ insert_name name rest

unfoldable pub sort_names : List Text → List Text
sort_names [] = []
sort_names (name ∷ rest) = insert_name name (sort_names rest)

-- the loop that keeps one of each run of equal names; `last` is the name kept last
unfoldable pub drop_equal : Text → List Text → List Text
drop_equal last [] = []
drop_equal last (name ∷ rest) =
    let kept = drop_equal name rest in
    let skipped = drop_equal last rest in if same name last then skipped else name ∷ kept

unfoldable pub dedup : List Text → List Text
dedup [] = []
dedup (name ∷ rest) = name ∷ drop_equal name rest

-- an array of names, blank past its end
abbrev pub of_list : List Text → ℕ → Text
of_list xs i = get_or xs i []

-- compute_joint_config: the number of members and their names; `none` is -1. Behind the members the
-- array keeps what the sort left there.
unfoldable pub compute_joint_config : ℕ → (ℕ → Text) → ℕ → (ℕ → Text) → Option (ℕ × (ℕ → Text))
compute_joint_config old_members old_member_woofs new_members new_member_woofs =
    if ltb max_members (old_members + new_members)
    then none
    else let sorted =
        sort_names (names old_members 0 old_member_woofs ++ names new_members 0 new_member_woofs) in
      let joint = dedup sorted in some (length joint, of_list (joint ++ drop (length joint) sorted))
