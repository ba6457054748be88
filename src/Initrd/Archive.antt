-- ===== src/Initrd/Archive.antt =====
-- src/mm/initrd.c: the reader of a tar archive. `mem` is the byte at each address.
use scdk.Base.{
  ℕ, zero, suc, ◌+◌, ◌-◌, ◌*◌, ◌/◌, ◌%◌, ◌^◌, Bool, true, false, not, ◌&&◌, ◌||◌, Option, none,
  some, ltb, leb, ◌==◌, if◌then◌else◌, List, [], ◌∷◌, ◌++◌, length,
}
use scdk.Status.{Error, Result, Status, ok, err, inval, noent, bounds, guard, checked, ◌>>=◌, ◌>>◌}
use scdk.Initrd.{Initrd, empty_entry, max_path, slash, dot, space, str_eq, skip, remember_file}

-- `SCDK_TAR_BLOCK_SIZE`, the size of `struct scdk_tar_header`
abbrev pub block_size : ℕ
block_size = 512

-- The places of the header's fields `name`, `size`, `typeflag` and `prefix`, with their lengths.
abbrev pub name_at : ℕ
name_at = 0

abbrev pub name_size : ℕ
name_size = 100

abbrev pub size_at : ℕ
size_at = 124

abbrev pub size_size : ℕ
size_size = 12

abbrev pub typeflag_at : ℕ
typeflag_at = 156

abbrev pub prefix_at : ℕ
prefix_at = 345

abbrev pub prefix_size : ℕ
prefix_size = 155

-- `memory_is_zero`
unfoldable pub memory_is_zero : (ℕ → ℕ) → ℕ → ℕ → Bool
memory_is_zero mem at zero = true
memory_is_zero mem at (suc n) = (mem at == 0) && memory_is_zero mem (at + 1) n

-- The loop of `parse_octal`, with `left` characters to go.
unfoldable pub octal_from : ℕ → (ℕ → ℕ) → ℕ → ℕ → Bool → Result ℕ
octal_from zero mem at value saw = if saw then ok value else err inval
octal_from (suc left) mem at value saw =
    let rest = octal_from left mem (at + 1) ((value * 8 + (mem at - 48)) % 2 ^ 64) true in
    if mem at == 0 || mem at == space
    then (if saw then ok value else err inval)
    else if ltb (mem at) 48 || ltb 55 (mem at)
    then err inval
    else rest

-- `parse_octal` of pointers that are not null
unfoldable pub parse_octal : (ℕ → ℕ) → ℕ → ℕ → Result ℕ
unfolding octal_from
parse_octal mem at field_size = octal_from field_size mem at 0 false

-- The characters that `bounded_cstr_len` counts.
unfoldable pub bounded_cstr : (ℕ → ℕ) → ℕ → ℕ → List ℕ
bounded_cstr mem at zero = []
bounded_cstr mem at (suc n) =
    let rest = bounded_cstr mem (at + 1) n in if mem at == 0 then [] else mem at ∷ rest

-- `append_path_component`
unfoldable pub append_component : ℕ → List ℕ → List ℕ → Result (List ℕ)
append_component out_size out component =
    if length component == 0
    then ok out
    else if leb out_size (length out + length component)
    then err bounds
    else ok (out ++ component)

-- The `/` between the two parts of a path, if there is a first.
unfoldable pub separate : ℕ → List ℕ → Result (List ℕ)
separate out_size out =
    if ltb 1 (length out)
    then (if leb out_size (length out + 1) then err bounds else ok (out ++ (slash ∷ [])))
    else ok out

-- The header's name, without `./` before it.
abbrev pub header_name : (ℕ → ℕ) → ℕ → List ℕ
header_name mem header =
    if mem (header + name_at) == dot && mem (header + name_at + 1) == slash
    then bounded_cstr mem (header + name_at + 2) (name_size - 2)
    else bounded_cstr mem (header + name_at) name_size

-- `normalize_tar_path` of pointers that are not null, into a buffer of at least two bytes
unfoldable pub normalize_path : (ℕ → ℕ) → ℕ → ℕ → Result (List ℕ)
normalize_path mem header out_size = do
  prefixed ←
      append_component out_size (slash ∷ []) (bounded_cstr mem (header + prefix_at) prefix_size)
  separated ← separate out_size prefixed
  path ← append_component out_size separated (header_name mem header)
  guard (not (leb (length path) 1)) noent
  ok path

-- `tar_header_is_file`
abbrev pub is_file : (ℕ → ℕ) → ℕ → Bool
is_file mem header = mem (header + typeflag_at) == 48 || mem (header + typeflag_at) == 0

-- The round's file, if the header is one's.
unfoldable pub take_file : (ℕ → ℕ) → Initrd → ℕ → ℕ → ℕ → Status × Initrd
take_file mem t header start size =
    if is_file mem header
    then checked (normalize_path mem header max_path) t (λ path. remember_file t path start size)
    else (ok tt, t)

abbrev pub padded_size : ℕ → ℕ
padded_size size = (size + block_size - 1) % 2 ^ 64 / block_size * block_size

-- What a round leaves: the end of the loop, an error, or the next offset.
pub data Round : Type 0 where
  ended : Round
  failed : Error → Initrd → Round
  goes_on : ℕ → Initrd → Round

-- The end of a round, whose file has been taken.
abbrev pub after_file : Status × Initrd → ℕ → Round
after_file (ok _, t) offset = goes_on offset t
after_file (err e, t) offset = failed e t

-- A round once the file's size is known.
abbrev pub sized : (ℕ → ℕ) → ℕ → ℕ → ℕ → Initrd → Result ℕ → Round
sized mem base size offset t (err e) = failed e t
sized mem base size offset t (ok n) =
    let file = base + offset in
    let data_offset = (offset + block_size) % 2 ^ 64 in
    if ltb size data_offset || ltb (size - data_offset) (padded_size n)
    then failed bounds t
    else after_file (take_file mem t file (base + data_offset) n)
        ((data_offset + padded_size n) % 2 ^ 64)

-- One round of the loop of `parse_tar_image`.
unfoldable pub round : (ℕ → ℕ) → ℕ → ℕ → ℕ → Initrd → Round
round mem base size offset t =
    if ltb size ((offset + block_size) % 2 ^ 64) || memory_is_zero mem (base + offset) block_size
    then ended
    else sized mem base size offset t (parse_octal mem (base + offset + size_at) size_size)

-- The end of `parse_tar_image`.
abbrev pub counted : Initrd → Status × Initrd
counted t = (if t.count == 0 then err noent else ok tt, t)

-- The loop, with fuel; a round takes a block at least.
unfoldable pub parse_from : ℕ → (ℕ → ℕ) → ℕ → ℕ → ℕ → Initrd → Option (Status × Initrd)
parse_from zero mem base size offset t = none
parse_from (suc fuel) mem base size offset t = elim (round mem base size offset t) [
  | ended ↦ some (counted t)
  | failed e t' ↦ some (err e, t')
  | goes_on offset' t' ↦ parse_from fuel mem base size offset' t'
]

-- The table once `parse_tar_image` has cleared it.
abbrev pub cleared : Initrd → Initrd
cleared t = record t { files = λ i. empty_entry; count = 0 }

-- `parse_tar_image`
unfoldable pub parse_image : (ℕ → ℕ) → Initrd → ℕ → ℕ → Option (Status × Initrd)
unfolding parse_from
parse_image mem t base size =
    if base == 0 || ltb size block_size
    then some (err inval, t)
    else parse_from (size / block_size + 1) mem base size 0 (cleared t)

-- `struct limine_file` as far as it is read; a string that is null is `none`.
pub record Module : Type 0 where
  pub address : ℕ
  pub size : ℕ
  pub string : Option (List ℕ)
  pub path : Option (List ℕ)

-- `"scdk.initrd"`
abbrev pub initrd_name : List ℕ
initrd_name = 115 ∷ 99 ∷ 100 ∷ 107 ∷ 46 ∷ 105 ∷ 110 ∷ 105 ∷ 116 ∷ 114 ∷ 100 ∷ []

-- `str_ends_with` of two strings that are not null
unfoldable pub str_ends_with : List ℕ → List ℕ → Bool
str_ends_with value suffix =
    if ltb (length value) (length suffix)
    then false
    else str_eq (skip (length value - length suffix) value) suffix

-- The test of the loop of `find_initrd_module`.
abbrev pub is_initrd : Module → Bool
is_initrd m =
    elim m.string [ none ↦ false | some s ↦ str_eq s initrd_name ]
    || elim m.path [ none ↦ false | some p ↦ str_ends_with p (slash ∷ initrd_name) ]

-- The loop of `find_initrd_module`; `default` is the first module, which may be null.
unfoldable pub module_from : List (Option Module) → Option Module → Option Module
module_from [] default = default
module_from (none ∷ ms) default = module_from ms default
module_from (some m ∷ ms) default =
    let rest = module_from ms default in if is_initrd m then some m else rest

-- `find_initrd_module`; no response is no modules.
unfoldable pub find_module : List (Option Module) → Option Module
find_module [] = none
find_module (m ∷ ms) = module_from (m ∷ ms) m

-- `scdk_initrd_init_from_limine`, with the modules of the response.
unfoldable pub init_from_limine : (ℕ → ℕ) → Initrd → List (Option Module) → Option (Status × Initrd)
unfolding parse_image
init_from_limine mem t modules = elim (find_module modules) [
  | none ↦ some (err noent, t)
  | some m ↦
      if m.address == 0 || m.size == 0
      then some (err noent, t)
      else elim (parse_image mem t m.address m.size) [
        | none ↦ none
        | some (status, t') ↦ elim status [
          | err e ↦ some (err e, t')
          | ok _ ↦ some (ok tt, record t' { initialized = true })
        ]
      ]
]
