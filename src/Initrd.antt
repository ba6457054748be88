-- ===== src/Initrd.antt =====
-- src/mm/initrd.c and src/include/scdk/vfs.h: the archive that the boot loader hands over, and its
-- files. A C string is the list of its characters before the end mark. The records of the boot
-- loader's modules are those of its protocol.
pub mod Archive
pub mod Tree
pub mod Bounds
pub mod Octal
pub mod Stored
pub mod Ends
pub mod Agree
use scdk.Base.{
  ℕ, zero, suc, ◌+◌, Bool, true, false, not, ◌&&◌, ◌||◌, Option, none, some, ltb, ◌==◌,
  if◌then◌else◌, update, List, [], ◌∷◌, length, find_slot,
}
use scdk.Status.{Result, Status, ok, err, inval, nomem, noent, notsup, guard, ◌>>=◌, ◌>>◌}

abbrev pub max_files : ℕ
max_files = 32

abbrev pub max_path : ℕ
max_path = 128

-- The characters `/`, `.` and space.
abbrev pub slash : ℕ
slash = 47

abbrev pub dot : ℕ
dot = 46

abbrev pub space : ℕ
space = 32

-- `struct scdk_initrd_entry`; `start` is an address.
pub record Entry : Type 0 where
  pub path : List ℕ
  pub start : ℕ
  pub size : ℕ
  pub flags : ℕ

pub record Initrd : Type 0 where
  pub files : ℕ → Entry
  pub count : ℕ
  pub initialized : Bool

abbrev pub empty_entry : Entry
empty_entry = record { path = []; start = 0; size = 0; flags = 0 }

-- `str_eq` of two strings that are not null
abbrev pub str_eq : List ℕ → List ℕ → Bool
str_eq [] [] = true
str_eq [] (y ∷ ys) = false
str_eq (x ∷ xs) [] = false
str_eq (x ∷ xs) (y ∷ ys) = (x == y) && str_eq xs ys

-- The string past its first characters.
abbrev pub skip : ℕ → List ℕ → List ℕ
skip zero s = s
skip (suc n) [] = []
skip (suc n) (x ∷ s) = skip n s

-- `remember_file` of a path that is not null
unfoldable pub remember_file : Initrd → List ℕ → ℕ → ℕ → Status × Initrd
remember_file t path start size =
    if start == 0 || not (ltb t.count max_files) then (err nomem, t) else (
      ok tt,
      record t {
        files =
            update t.files t.count (record { path = path; start = start; size = size; flags = 0 });
        count = t.count + 1;
      },
    )

-- `scdk_initrd_list`: the names go to the log.
unfoldable pub list : Initrd → Status
list t = guard t.initialized notsup

-- `scdk_initrd_find`; `out` says that neither pointer is null.
unfoldable pub find : Initrd → List ℕ → Bool → Result Entry
find t path out =
    guard t.initialized notsup
    >> guard out inval
    >> elim (find_slot (λ i. str_eq path (t.files i).path) t.count 0) [
      | none ↦ err noent
      | some i ↦ ok (t.files i)
    ]
