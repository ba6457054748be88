-- ===== src/Initrd/Tree.antt =====
-- src/mm/initrd.c and src/include/scdk/vfs.h: the directories that the archive's paths make up.
use scdk.Base.{
  ℕ, zero, suc, ◌+◌, Bool, true, not, ◌&&◌, ◌||◌, Option, none, some, ltb, leb, ◌==◌, if◌then◌else◌,
  update, List, [], ◌∷◌, length, find_slot,
}
use scdk.Status.{Result, Status, ok, err, inval, noent, bounds, notsup, guard, chained, ◌>>=◌, ◌>>◌}
use scdk.Initrd.{Initrd, Entry, slash, str_eq, skip}

abbrev pub max_name : ℕ
max_name = 64

abbrev pub node_file : ℕ
node_file = 1

abbrev pub node_dir : ℕ
node_dir = 2

-- `struct scdk_vfs_stat`
pub record Stat : Type 0 where
  pub type : ℕ
  pub size : ℕ

-- `struct scdk_vfs_dirent`
pub record Dirent : Type 0 where
  pub name : List ℕ
  pub type : ℕ
  pub size : ℕ

-- The first characters of a string.
abbrev pub take : ℕ → List ℕ → List ℕ
take zero s = []
take (suc n) [] = []
take (suc n) (x ∷ s) = x ∷ take n s

-- `s[n]` of a string as long as `n` at least: past the last character is the end mark.
abbrev pub char_at : List ℕ → ℕ → ℕ
char_at [] n = 0
char_at (x ∷ s) zero = x
char_at (x ∷ s) (suc n) = char_at s n

-- The loop of `normalized_query_len`
unfoldable pub strip : ℕ → List ℕ → ℕ
strip zero s = zero
strip (suc n) s =
    let rest = strip n s in if ltb 1 (suc n) && char_at s n == slash then rest else suc n

-- `normalized_query_len`
unfoldable pub query_len : List ℕ → ℕ
query_len path = strip (length path) path

-- `path_eq_len` and `dirent_name_eq`, for at most as many characters as `query` has
abbrev pub path_eq_len : List ℕ → List ℕ → ℕ → Bool
path_eq_len path query n = (length path == n) && str_eq (take n path) (take n query)

-- `path_has_dir_prefix`, for at most as many characters as `query` has
abbrev pub path_has_dir_prefix : List ℕ → List ℕ → ℕ → Bool
path_has_dir_prefix path query n =
    if n == 1 && char_at query 0 == slash
    then char_at path 0 == slash && not (char_at path 1 == 0)
    else ltb (n + 1) (length path) && str_eq (take n path) (take n query) && char_at path n == slash

-- `scdk_initrd_stat` of a path that is not null; `out` says that `out_stat` is not.
unfoldable pub stat : Initrd → List ℕ → Bool → Result Stat
stat t path out =
    guard t.initialized notsup
    >> guard (out && char_at path 0 == slash) inval
    >> (if query_len path == 1
        then ok (record { type = node_dir; size = 0 })
        else elim (find_slot (λ i. path_eq_len (t.files i).path path (query_len path)) t.count 0) [
          | some i ↦ ok (record { type = node_file; size = (t.files i).size })
          | none ↦
              elim (find_slot (λ i. path_has_dir_prefix (t.files i).path path (query_len path))
                t.count 0) [ some i ↦ ok (record { type = node_dir; size = 0 }) | none ↦ err noent ]
        ])

-- The entries written so far, with their number.
pub record Listing : Type 0 where
  pub entries : ℕ → Dirent
  pub count : ℕ

-- The entry of a name that is listed already: a directory it is for good.
abbrev pub seen_again : Dirent → ℕ → Dirent
seen_again d type = if type == node_dir then record d { type = node_dir; size = 0 } else d

-- `add_dirent` of pointers that are not null, with the name's characters alone
unfoldable pub add_dirent : Listing → ℕ → List ℕ → ℕ → ℕ → Status × Listing
add_dirent l capacity name type size =
    if length name == 0
    then (err inval, l)
    else if leb max_name (length name)
    then (err bounds, l)
    else elim (find_slot (λ i. path_eq_len (l.entries i).name name (length name)) l.count 0) [
      | some i ↦ (ok tt, record l { entries = update l.entries i (seen_again (l.entries i) type) })
      | none ↦ if leb capacity l.count then (err bounds, l) else (
        ok tt,
        record {
          entries = update l.entries l.count (record { name = name; type = type; size = size });
          count = l.count + 1;
        },
      )
    ]

-- The characters of a path's first part.
abbrev pub first_part : List ℕ → List ℕ
first_part [] = []
first_part (x ∷ s) = let rest = first_part s in if x == slash then [] else x ∷ rest

-- `remainder`: what follows the directory in the path of a file below it
abbrev pub remainder : List ℕ → ℕ → List ℕ
remainder path n = if n == 1 then skip 1 path else skip (n + 1) path

-- One round of the loop of `scdk_initrd_listdir`, for a file of a directory whose path has `n`
-- characters
unfoldable pub list_file : Listing → ℕ → List ℕ → ℕ → Entry → Status × Listing
list_file l capacity path n e =
    let rest = remainder e.path n in
    if not (path_has_dir_prefix e.path path n) || char_at rest 0 == 0
    then (ok tt, l)
    else if char_at rest (length (first_part rest)) == slash
    then add_dirent l capacity (first_part rest) node_dir 0
    else add_dirent l capacity (first_part rest) node_file e.size

-- The loop, over the `left` files from index `i` on.
unfoldable pub list_from : ℕ → ℕ → Initrd → Listing → ℕ → List ℕ → Status × Listing
list_from zero i t l capacity path = (ok tt, l)
list_from (suc left) i t l capacity path =
    chained (list_file l capacity path (query_len path) (t.files i))
      λ _ l'. list_from left (i + 1) t l' capacity path

abbrev pub empty_listing : Listing
empty_listing = record { entries = λ i. record { name = []; type = 0; size = 0 }; count = 0 }

-- What `scdk_initrd_listdir` finds out before it writes to `entries`; `out` says that no pointer is
-- null.
unfoldable pub list_guard : Initrd → List ℕ → ℕ → Bool → Status
list_guard t path capacity out = do
  guard t.initialized notsup
  guard (out && not (capacity == 0) && char_at path 0 == slash) inval
  node ← stat t path true
  guard (node.type == node_dir) notsup

-- `scdk_initrd_listdir`: its status, with the entries of the buffer where it has written them.
unfoldable pub listdir : Initrd → List ℕ → ℕ → Bool → Status × Option Listing
listdir t path capacity out = elim (list_guard t path capacity out) [
  | err e ↦ (err e, none)
  | ok _ ↦ let (status, l) = list_from t.count 0 t empty_listing capacity path in (status, some l)
]
