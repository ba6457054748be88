-- ===== src/AddressSpace.antt =====
-- src/mm/address_space.c: address spaces, kernel objects on the heap that hold the root of a tree of
-- page tables.
pub mod Pages
use scdk.Base.{
  ℕ, ◌+◌, ◌-◌, ◌*◌, ◌/◌, ◌%◌, ◌^◌, bit_or, Bool, true, false, not, ◌||◌, ltb, ◌==◌, if◌then◌else◌,
  update,
}
use scdk.Status.{Result, Status, ok, err, inval, nomem, noent, bounds, guard, checked, ◌>>=◌, ◌>>◌}
use scdk.Object
use scdk.Object.{Pointer, null, address, boot_core}
use scdk.Cap
use scdk.Cap.{CapSpace, right_read, right_write, right_map, right_bind, create_object}
use scdk.UserSpace.{user_virt_base, user_virt_top}
use scdk.Pmm
use scdk.Pmm.{page_size}
use scdk.Vmm.{Vmm, bit, is_page_aligned, create_root, activate_root, map_page, unmap_page}
use scdk.Vmm as Vmm
use scdk.Heap.{Heap, kfree, alloc_object_storage}
use scdk.Scheduler.{Scheduler}

abbrev pub obj_address_space : ℕ
obj_address_space = 2

-- `struct scdk_address_space`, of 24 bytes
pub record AddressSpace : Type 0 where
  pub object_id : ℕ
  pub root_phys : ℕ
  pub owner_core : ℕ
  pub flags : ℕ

abbrev pub zeroed_space : AddressSpace
zeroed_space = record { object_id = 0; root_phys = 0; owner_core = 0; flags = 0 }

-- The kernel below this part, and the address space at each address of the heap.
pub record Memory : Type 0 where
  pub scheduler : Scheduler
  pub aspaces : ℕ → AddressSpace

abbrev pub heap_of : Memory → Heap
heap_of m = m.scheduler.heap

abbrev pub vmm_of : Memory → Vmm
vmm_of m = m.scheduler.heap.vmm

abbrev pub caps_of : Memory → CapSpace
caps_of m = m.scheduler.space

abbrev pub set_heap : Memory → Heap → Memory
set_heap m heap = record m { scheduler = record (m.scheduler) { heap = heap } }

abbrev pub set_vmm : Memory → Vmm → Memory
set_vmm m vmm = set_heap m (record (m.scheduler.heap) { vmm = vmm })

abbrev pub set_caps : Memory → CapSpace → Memory
set_caps m space = record m { scheduler = record (m.scheduler) { space = space } }

-- `validate_user_page`
unfoldable pub validate_user_page : ℕ → Status
validate_user_page vaddr = do
  guard (is_page_aligned vaddr) inval
  guard (not (ltb vaddr user_virt_base || ltb (user_virt_top - page_size) vaddr)) bounds

-- What `object->payload` of an address space points to: `create` alone makes such objects, so the
-- pointer is never to a static table.
abbrev pub aspace_at : (ℕ → AddressSpace) → Pointer → Result AddressSpace
aspace_at aspaces (address a) = ok (aspaces a)
aspace_at aspaces _ = err noent

-- `lookup_aspace`
unfoldable pub lookup_aspace : Memory → ℕ → ℕ → Result AddressSpace
lookup_aspace m cap required = do
  entry ← Cap.check (caps_of m) cap required obj_address_space
  object ← Object.lookup (caps_of m).objects entry.object_id true
  aspace ← aspace_at m.aspaces object.payload
  guard (not (not (aspace.object_id == entry.object_id) || aspace.root_phys == 0)) noent
  ok aspace

-- The rights that a mapping asks for.
abbrev pub map_rights : ℕ → ℕ
map_rights flags =
    if bit 0 flags == 1
    then bit_or (bit_or right_map right_read) right_write
    else bit_or right_map right_read

-- `check_map_rights`
unfoldable pub check_map_rights : Memory → ℕ → ℕ → Result AddressSpace
check_map_rights m cap flags = lookup_aspace m cap (map_rights flags)

-- The end of `scdk_address_space_create`, with a root in hand.
unfoldable pub make_space : Memory → ℕ → ℕ → Result ℕ × Memory
make_space m storage root =
    let (r, space) = create_object (caps_of m) obj_address_space boot_core 0 (address storage) in
    let m' = set_caps m space in
    elim r [
      | err e ↦
          let v = vmm_of m' in
          let freed = set_vmm m' (record v { pmm = (Pmm.free v.pmm root).1 }) in
          (err e, set_heap freed (kfree (heap_of freed) storage))
      | ok id ↦
          let (c, space') =
            Cap.create space id
              (bit_or (bit_or (bit_or right_read right_write) right_map) right_bind) true in
          (
            c,
            set_caps
                (record m' {
                  aspaces = update m.aspaces storage (record {
                    object_id = id;
                    root_phys = root;
                    owner_core = boot_core;
                    flags = 0;
                  });
                })
                space',
          )
    ]

-- `scdk_address_space_create`; `out` says that `out_cap` is not null.
unfoldable pub create : Memory → Bool → Result ℕ × Memory
unfolding make_space
create m out =
    if not out
    then (err inval, m)
    else let (storage, heap) = alloc_object_storage (heap_of m) obj_address_space 24 in
      let m' = set_heap m heap in
      if storage == 0
      then (err nomem, m')
      else let zeroed = record m' { aspaces = update m.aspaces storage zeroed_space } in
        let (r, v) = create_root (vmm_of zeroed) true in
        let rooted = set_vmm zeroed v in
        elim r [
          | err e ↦ (err e, set_heap rooted (kfree (heap_of rooted) storage))
          | ok root ↦ make_space rooted storage root
        ]

-- A call of the page tables, put back into the kernel's state.
abbrev pub on_vmm : Memory → Status × Vmm → Status × Memory
on_vmm m (status, v) = (status, set_vmm m v)

-- The tests of `scdk_address_space_map`.
unfoldable pub check_map : Memory → ℕ → ℕ → ℕ → ℕ → Result AddressSpace
check_map m cap vaddr paddr flags = do
  aspace ← check_map_rights m cap flags
  validate_user_page vaddr
  guard (is_page_aligned paddr) inval
  ok aspace

-- `scdk_address_space_map`; `SCDK_VMM_MAP_USER` is bit 1 of the flags.
unfoldable pub map : Memory → ℕ → ℕ → ℕ → ℕ → Status × Memory
map m cap vaddr paddr flags =
    checked (check_map m cap vaddr paddr flags) m
      λ aspace. on_vmm m (map_page (vmm_of m) aspace.root_phys vaddr paddr (bit_or flags 2))

-- `scdk_address_space_unmap`
unfoldable pub unmap : Memory → ℕ → ℕ → Status × Memory
unmap m cap vaddr = checked (lookup_aspace m cap (bit_or right_map right_read)) m λ aspace.
    checked (validate_user_page vaddr) m
      λ _. on_vmm m (unmap_page (vmm_of m) aspace.root_phys vaddr)

-- `scdk_address_space_activate`
unfoldable pub activate : Memory → ℕ → Status × Memory
activate m cap =
    checked (lookup_aspace m cap right_read) m
      λ aspace. on_vmm m (activate_root (vmm_of m) aspace.root_phys)

-- `scdk_address_space_translate`; `out` says that `out_phys` is not null.
unfoldable pub translate : Memory → ℕ → ℕ → Bool → Result (ℕ × ℕ)
translate m cap vaddr out = do
  guard out inval
  aspace ← lookup_aspace m cap right_read
  validate_user_page (vaddr / page_size * page_size)
  Vmm.translate (vmm_of m) aspace.root_phys vaddr true
