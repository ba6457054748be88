-- ===== src/UserSpace.antt =====
-- src/ipc/user_ipc.c: the checks of a range of user memory, and copies from and to it.
pub mod Validate
use scdk.Base.{
  ℕ, zero, suc, ◌+◌, ◌-◌, ◌*◌, ◌/◌, ◌%◌, ◌^◌, bit_and, Bool, true, false, not, ◌&&◌, ◌||◌, Option,
  none, some, ltb, leb, ◌==◌, if◌then◌else◌, List, [], ◌∷◌, length,
}
use scdk.Status.{Result, Status, ok, err, inval, perm, bounds, guard, ◌>>=◌, ◌>>◌}

-- `SCDK_USER_VIRT_BASE` and `SCDK_USER_VIRT_TOP`
abbrev pub user_virt_base : ℕ
user_virt_base = 0x100000

abbrev pub user_virt_top : ℕ
user_virt_top = 0x800000000000

abbrev pub page_size : ℕ
page_size = 4096

abbrev pub map_write : ℕ
map_write = 2 ^ 0

abbrev pub map_user : ℕ
map_user = 2 ^ 1

-- The current address space: the flags of the page at an address, or why it has none
-- (`scdk_vmm_virt_to_phys`), and the byte at each address.
pub record UserSpace : Type 0 where
  pub flags_at : ℕ → Result ℕ
  pub byte_at : ℕ → ℕ

-- `checked_user_end`: the last address of the range, if it lies in user space.
unfoldable pub checked_user_end : ℕ → ℕ → Option ℕ
checked_user_end user_ptr size =
    if user_ptr == 0 || size == 0
    then none
    else if ltb (2 ^ 64 - 1 - (size - 1)) user_ptr
    then none
    else (let last = (user_ptr + size - 1) % 2 ^ 64 in
        if ltb user_ptr user_virt_base || leb user_virt_top last then none else some last)

-- `address & ~(SCDK_PAGE_SIZE - 1)`
abbrev pub page_of : ℕ → ℕ
page_of address = address / page_size * page_size

-- The tests of one round of the loop.
pub check_page : UserSpace → Bool → ℕ → Status
check_page u writable page = do
  flags ← u.flags_at page
  guard (not (bit_and flags map_user == 0)) perm
  guard (not (writable && bit_and flags map_write == 0)) perm

-- The loop from `page` on, with fuel; it ends after the page of `last`.
pub check_pages : ℕ → UserSpace → Bool → ℕ → ℕ → Status
check_pages zero u writable page last = err inval
check_pages (suc fuel) u writable page last =
    let rest = check_pages fuel u writable (page + page_size) last in
    check_page u writable page >> (if leb (page_of last) page then ok tt else rest)

-- `scdk_user_validate_range`. One round for each page is enough fuel.
unfoldable pub validate_range : UserSpace → ℕ → ℕ → Bool → Status
unfolding check_pages check_page
validate_range u user_ptr size writable = elim (checked_user_end user_ptr size) [
  | none ↦ err bounds
  | some last ↦
      check_pages (last / page_size - user_ptr / page_size + 1) u writable (page_of user_ptr) last
]

-- `memcpy` from user memory
pub read_bytes : UserSpace → ℕ → ℕ → List ℕ
read_bytes u address zero = []
read_bytes u address (suc n) = u.byte_at address ∷ read_bytes u (address + 1) n

-- `memcpy` to user memory
pub write_bytes : (ℕ → ℕ) → ℕ → List ℕ → ℕ → ℕ
write_bytes bytes address [] = bytes
write_bytes bytes address (b ∷ bs) =
    write_bytes (λ a. if a == address then b else bytes a) (address + 1) bs

-- `scdk_user_copy_from`; `kernel_dst` says that the destination is not null.
unfoldable pub copy_from : UserSpace → ℕ → Bool → ℕ → Result (List ℕ)
unfolding read_bytes
copy_from u user_ptr kernel_dst size = do
  guard (kernel_dst && not (size == 0)) inval
  validate_range u user_ptr size false
  ok (read_bytes u user_ptr size)

-- `scdk_user_copy_to` of the bytes at a source that is not null.
unfoldable pub copy_to : UserSpace → ℕ → List ℕ → Status × UserSpace
unfolding write_bytes
copy_to u user_ptr src =
    let checked =
      guard (not (length src == 0)) inval >> validate_range u user_ptr (length src) true in
    elim checked [
      | err e ↦ (err e, u)
      | ok _ ↦ (ok tt, record u { byte_at = write_bytes u.byte_at user_ptr src })
    ]
