-- ===== src/Tests/Archives.antt =====
-- A small archive, and copies of memory.
use scdk.Base.{
  ℕ, ◌+◌, ◌-◌, ◌/◌, ◌%◌, ◌^◌, ◌<◌, ◌≡◌, refl, true, false, ◌&&◌, leb, ltb, ◌==◌, if◌then◌else◌,
  some, List, [], ◌∷◌, update, arith, ==_iff,
}
use scdk.Status.{Status, ok}
use scdk.Bytes.{memmove}
use scdk.Bytes.Move.{copied, memmove-copied}
use scdk.Initrd.{Initrd, Entry, empty_entry, find}
use scdk.Initrd.Archive.{parse_image, parse_octal}
use scdk.Initrd.Tree.{Stat, stat, take, query_len, node_file}
use scdk.Initrd.Ends.{parse_image-ends}
use scdk.Initrd.Stored.{Stored, parse_image-Stored}
use scdk.Initrd.Octal.{parse_octal-Spelled}
use scdk.Initrd.Agree.{stat-find}
use scdk.Keyboard.Modifiers.{all_below-lt}

memmove-copied_example : memmove (λ a. a) 12 10 4 13 ≡ copied (λ a. a) 12 10 4 13
memmove-copied_example = memmove-copied (λ a. a) 12 10 4 13

-- At 4096 a header of file `./a` with 3 bytes, which follow it.
abbrev pub tar : ℕ → ℕ
tar a =
    if a == 4096
    then 46
    else if a == 4097
    then 47
    else if a == 4098
    then 97
    else if leb 4220 a && ltb a 4230
    then 48
    else if a == 4230
    then 51
    else if a == 4252
    then 48
    else if a == 4608
    then 104
    else if a == 4609
    then 105
    else if a == 4610
    then 33
    else 0

abbrev no_archive : Initrd
no_archive = record { files = λ i. empty_entry; count = 0; initialized = false }

abbrev pub file_a : Entry
file_a = record { path = 47 ∷ 97 ∷ []; start = 4608; size = 3; flags = 0 }

abbrev pub archive : Initrd
archive = record { files = update (λ i. empty_entry) 0 file_a; count = 1; initialized = true }

abbrev parsed : Initrd
parsed = record archive { initialized = false }

parses : parse_image tar no_archive 4096 1024 ≡ some (ok tt, parsed)
unfolding parse_image scdk.Initrd.Archive.round scdk.Initrd.Archive.memory_is_zero parse_octal
    scdk.Initrd.Archive.take_file scdk.Initrd.Archive.normalize_path
    scdk.Initrd.Archive.append_component scdk.Initrd.Archive.bounded_cstr
    scdk.Initrd.Archive.separate scdk.Initrd.remember_file
parses = refl

parse_image-ends_example : (r : Status × Initrd) × (parse_image tar no_archive 4096 1024 ≡ some r)
parse_image-ends_example = parse_image-ends tar no_archive 4096 1024 (omega arith)

parse_image-Stored_example : Stored 4096 5120 parsed × (0 < 1)
parse_image-Stored_example = parse_image-Stored tar no_archive 4096 1024 parsed (omega arith) parses

parse_octal-Spelled_example : parse_octal tar 4220 12 ≡ ok 3
parse_octal-Spelled_example =
    parse_octal-Spelled tar 4220 3 (omega arith)
      (λ i lt.
        (==_iff (tar (4220 + i)) (48 + 3 / 8 ^ (10 - i) % 8)).0
          (all_below-lt 11 (λ i. tar (4220 + i) == 48 + 3 / 8 ^ (10 - i) % 8) refl i lt))
      refl

-- `/a/`
abbrev query : List ℕ
query = 47 ∷ 97 ∷ 47 ∷ []

query_long : query_len query ≡ 2
unfolding query_len scdk.Initrd.Tree.strip
query_long = refl

stat-find_example :
    ((e : Entry)
      → find archive (take (query_len query) query) true ≡ ok e
      → stat archive query true ≡ ok (record { type = node_file; size = e.size }))
    × ((s : Stat)
        → stat archive query true ≡ ok s
        → s.type ≡ node_file
        → (e : Entry) × (find archive (take (query_len query) query) true ≡ ok e)
          × (e.size ≡ s.size))
stat-find_example = stat-find archive query refl refl (omega (arith, query_long))
