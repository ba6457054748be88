-- ===== src/Vmm.antt =====
-- src/mm/vmm.c: the four-level page tables of x86-64, their walk, and mapping in them. The registers
-- that the inline assembly writes are the state's `active_root`; the flush of one translation from
-- the processor's cache and log output are left out.
pub mod Tree
pub mod Walk
pub mod Map
pub mod Isolate
use scdk.Base.{
  ℕ, zero, suc, ◌+◌, ◌-◌, ◌*◌, ◌/◌, ◌%◌, ◌^◌, bit_or, Bool, true, false, not, ◌&&◌, ◌||◌, ltb, leb,
  ◌==◌, if◌then◌else◌, update,
}
use scdk.Status.{Result, Status, ok, err, inval, noent, busy, notsup, guard, chained, ◌>>=◌, ◌>>◌}
use scdk.Pmm
use scdk.Pmm.{Pmm, page_size}

-- Physical memory is seen page by page: `tables page i` is the word `i` of the page at that address.
pub record Vmm : Type 0 where
  pub pmm : Pmm
  pub tables : ℕ → ℕ → ℕ
  pub active_root : ℕ
  pub hhdm_offset : ℕ
  pub initialized : Bool

-- `n & (1 << k)`, as a number that is 0 or 1.
abbrev pub bit : ℕ → ℕ → ℕ
bit k n = n / 2 ^ k % 2

-- The flags of an entry: `X86_PTE_PRESENT`, `_WRITABLE`, `_USER` and `_HUGE`.
abbrev pub is_present : ℕ → Bool
is_present entry = bit 0 entry == 1

abbrev pub is_huge : ℕ → Bool
is_huge entry = bit 7 entry == 1

-- `entry & X86_PTE_ADDR`: bits 12 to 51.
abbrev pub address : ℕ → ℕ
address entry = entry / 4096 % 2 ^ 40 * 4096

-- `is_canonical` and `is_page_aligned`
abbrev pub is_canonical : ℕ → Bool
is_canonical virt = virt / 2 ^ 48 == 0 || virt / 2 ^ 48 == 0xffff

abbrev pub is_page_aligned : ℕ → Bool
is_page_aligned value = value % page_size == 0

-- `pml4_index`, `pdpt_index`, `pd_index` and `pt_index`
abbrev pub pml4_index : ℕ → ℕ
pml4_index virt = virt / 2 ^ 39 % 512

abbrev pub pdpt_index : ℕ → ℕ
pdpt_index virt = virt / 2 ^ 30 % 512

abbrev pub pd_index : ℕ → ℕ
pd_index virt = virt / 2 ^ 21 % 512

abbrev pub pt_index : ℕ → ℕ
pt_index virt = virt / 2 ^ 12 % 512

-- `validate_vmm_address`
unfoldable pub validate_address : Vmm → ℕ → Status
validate_address v virt =
    guard v.initialized notsup >> guard (is_page_aligned virt && is_canonical virt) inval

-- `validate_root`
unfoldable pub validate_root : Vmm → ℕ → Status
validate_root v root =
    guard v.initialized notsup >> guard (not (root == 0) && is_page_aligned root) inval

-- `table[index] = entry`
abbrev pub set_entry : Vmm → ℕ → ℕ → ℕ → Vmm
set_entry v table index entry = record v {
  tables = update v.tables table (update (v.tables table) index entry);
}

-- `allocate_table`: a page of the allocator, filled with zeros.
unfoldable pub allocate_table : Vmm → Result ℕ × Vmm
allocate_table v =
    let (r, pmm) = Pmm.alloc v.pmm true in
    elim r [
      | err e ↦ (err e, record v { pmm = pmm })
      | ok phys ↦ (ok phys, record v { pmm = pmm; tables = update v.tables phys (λ i. 0) })
    ]

-- The end of `next_table`: the table that an entry leads to.
abbrev pub follow : ℕ → Result ℕ
follow entry = if is_huge entry then err busy else ok (address entry)

-- The entry of a new table: present and writable, with the flags given.
abbrev pub table_entry : ℕ → ℕ → ℕ
table_entry phys table_flags = bit_or phys (3 + table_flags)

-- `next_table`; `table_flags` is 0 or `X86_PTE_USER`.
unfoldable pub next_table : Vmm → ℕ → ℕ → Bool → ℕ → Result ℕ × Vmm
next_table v table index create table_flags =
    if is_present (v.tables table index)
    then (follow (v.tables table index), v)
    else if not create
    then (err noent, v)
    else chained (allocate_table v) λ phys v'.
      let entry = table_entry phys table_flags in (follow entry, set_entry v' table index entry)

-- `leaf_table_for_root`
unfoldable pub leaf_table : Vmm → ℕ → ℕ → Bool → ℕ → Result ℕ × Vmm
leaf_table v root virt create table_flags =
    chained (next_table v root (pml4_index virt) create table_flags) λ pdpt v'.
      chained (next_table v' pdpt (pdpt_index virt) create table_flags)
        λ pd v''. next_table v'' pd (pd_index virt) create table_flags

-- `scdk_vmm_init`; `cr3` is what the register holds.
unfoldable pub init : Vmm → ℕ → ℕ → Status × Vmm
init v hhdm_offset cr3 =
    if hhdm_offset == 0
    then (err inval, v)
    else let v' = record v { hhdm_offset = hhdm_offset; active_root = address cr3 } in
      if address cr3 == 0 then (err noent, v') else (ok tt, record v' { initialized = true })

-- `scdk_vmm_current_root`; `out` says that `out_cr3_phys` is not null.
unfoldable pub current_root : Vmm → Bool → Result ℕ
current_root v out = do guard out inval; guard v.initialized notsup; ok v.active_root

-- The upper half of the active root is copied, and the lower half is empty.
abbrev pub copy_kernel_half : (ℕ → ℕ → ℕ) → ℕ → ℕ → ℕ → ℕ
copy_kernel_half tables root active i = if ltb i 256 then tables root i else tables active i

-- `scdk_vmm_create_root`; `out` says that `out_root_phys` is not null.
unfoldable pub create_root : Vmm → Bool → Result ℕ × Vmm
create_root v out =
    if not out
    then (err inval, v)
    else if not v.initialized
    then (err notsup, v)
    else chained (allocate_table v) λ root v'. (
      ok root,
      record v' { tables = update v'.tables root (copy_kernel_half v'.tables root v'.active_root) },
    )

-- `scdk_vmm_activate_root`
unfoldable pub activate_root : Vmm → ℕ → Status × Vmm
activate_root v root = elim (validate_root v root) [
  | err e ↦ (err e, v)
  | ok _ ↦ (ok tt, record v { active_root = root })
]

-- `SCDK_VMM_MAP_WRITE` and `SCDK_VMM_MAP_USER` are bits 0 and 1 of the flags.
abbrev pub page_entry : ℕ → ℕ → ℕ
page_entry phys flags = address phys + (1 + 2 * bit 0 flags + 4 * bit 1 flags)

-- The tests of `scdk_vmm_map_page_in_root` before the walk.
unfoldable pub check_map : Vmm → ℕ → ℕ → ℕ → ℕ → Status
check_map v root virt phys flags = do
  validate_root v root
  validate_address v virt
  guard (is_page_aligned phys && ltb flags 4) inval

-- The entry's test and write, once the leaf table is found.
unfoldable pub finish_map : ℕ → ℕ → ℕ → ℕ → Vmm → Status × Vmm
finish_map virt phys flags pt v =
    if is_present (v.tables pt (pt_index virt))
    then (err busy, v)
    else (ok tt, set_entry v pt (pt_index virt) (page_entry phys flags))

-- `scdk_vmm_map_page_in_root`
unfoldable pub map_page : Vmm → ℕ → ℕ → ℕ → ℕ → Status × Vmm
map_page v root virt phys flags = elim (check_map v root virt phys flags) [
  | err e ↦ (err e, v)
  | ok _ ↦ chained (leaf_table v root virt true (4 * bit 1 flags)) (finish_map virt phys flags)
]

unfoldable pub finish_unmap : ℕ → ℕ → Vmm → Status × Vmm
finish_unmap virt pt v =
    if is_present (v.tables pt (pt_index virt))
    then (ok tt, set_entry v pt (pt_index virt) 0)
    else (err noent, v)

-- `scdk_vmm_unmap_page_in_root`
unfoldable pub unmap_page : Vmm → ℕ → ℕ → Status × Vmm
unmap_page v root virt = elim (validate_root v root >> validate_address v virt) [
  | err e ↦ (err e, v)
  | ok _ ↦ chained (leaf_table v root virt false 0) (finish_unmap virt)
]

-- The flags that `scdk_vmm_virt_to_phys_in_root` reports of an entry.
abbrev pub entry_flags : ℕ → ℕ
entry_flags entry = bit 1 entry + 2 * bit 2 entry

-- `scdk_vmm_virt_to_phys_in_root`: the physical address and the flags. `out` says that `out_phys` is
-- not null.
unfoldable pub translate : Vmm → ℕ → ℕ → Bool → Result (ℕ × ℕ)
translate v root virt out = do
  validate_root v root
  validate_address v (virt / page_size * page_size)
  guard out inval
  pt ← (leaf_table v root virt false 0).0
  guard (is_present (v.tables pt (pt_index virt))) noent
  ok (
    address (v.tables pt (pt_index virt)) + virt % page_size,
    entry_flags (v.tables pt (pt_index virt)),
  )
