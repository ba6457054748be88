-- ===== src/Heap.antt =====
-- src/mm/heap.c and src/include/scdk/heap.h: the kernel heap, a doubly linked list of blocks with
-- headers in a committed range of virtual memory. A header is seen at each address; the bytes of the
-- payloads, which callers write, and log output are left out.
use scdk.Base.{
  ℕ, zero, suc, ◌+◌, ◌-◌, ◌*◌, ◌/◌, ◌%◌, ◌^◌, Bool, true, false, not, ◌&&◌, ◌||◌, ltb, leb, ◌==◌,
  if◌then◌else◌, update,
}
use scdk.Status.{Status, ok, err, nomem, busy, chained}
use scdk.Object.{obj_none}
use scdk.Pmm
use scdk.Pmm.{page_size}
use scdk.Vmm.{Vmm, map_page, unmap_page, translate}

-- `SCDK_HEAP_BASE`, `SCDK_HEAP_SIZE`, `SCDK_HEAP_MAGIC` and `SCDK_HEAP_INITIAL_PAGES` pages
abbrev pub heap_base : ℕ
heap_base = 0xffffffffd0000000

abbrev pub heap_size : ℕ
heap_size = 4 * 1024 * 1024

abbrev pub heap_magic : ℕ
heap_magic = 0x5343444b48454150

abbrev pub initial_size : ℕ
initial_size = 4 * page_size

-- The 40 bytes of `struct scdk_heap_block`, rounded up to the alignment.
abbrev pub header_size : ℕ
header_size = 48

abbrev pub min_split : ℕ
min_split = 16

-- `struct scdk_heap_block`
pub record HeapBlock : Type 0 where
  pub magic : ℕ
  pub size : ℕ
  pub free : Bool
  pub prev : ℕ
  pub next : ℕ

pub record Heap : Type 0 where
  pub vmm : Vmm
  pub block : ℕ → HeapBlock
  pub head : ℕ
  pub tail : ℕ
  pub commit_end : ℕ
  pub initialized : Bool

-- `align_up_size`
abbrev pub align_up_size : ℕ → ℕ → ℕ
align_up_size value alignment = (value + alignment - 1) % 2 ^ 64 / alignment * alignment

-- `ptr_in_heap`
abbrev pub ptr_in_heap : Heap → ℕ → Bool
ptr_in_heap h ptr = leb heap_base ptr && ltb ptr h.commit_end

-- `block_payload` and `payload_block`
abbrev pub block_payload : ℕ → ℕ
block_payload b = (b + header_size) % 2 ^ 64

abbrev pub payload_block : ℕ → ℕ
payload_block ptr = (ptr + 2 ^ 64 - header_size) % 2 ^ 64

abbrev pub set_block : Heap → ℕ → HeapBlock → Heap
set_block h b v = record h { block = update h.block b v }

abbrev pub set_next : Heap → ℕ → ℕ → Heap
set_next h b next = set_block h b (record (h.block b) { next = next })

abbrev pub set_prev : Heap → ℕ → ℕ → Heap
set_prev h b prev = set_block h b (record (h.block b) { prev = prev })

-- `block_insert_tail`
unfoldable pub insert_tail : Heap → ℕ → Heap
insert_tail h b =
    let linked = set_block h b (record (h.block b) { prev = h.tail; next = 0 }) in
    let joined = if h.tail == 0 then record linked { head = b } else set_next linked h.tail b in
    record joined { tail = b }

-- `block_remove`
unfoldable pub remove : Heap → ℕ → Heap
remove h b =
    let before =
      if (h.block b).prev == 0
      then record h { head = (h.block b).next }
      else set_next h (h.block b).prev (h.block b).next in
    if (before.block b).next == 0
    then record before { tail = (before.block b).prev }
    else set_prev before (before.block b).next (before.block b).prev

-- `block_coalesce_forward`
unfoldable pub coalesce_forward : Heap → ℕ → Heap
unfolding remove
coalesce_forward h b =
    let next = (h.block b).next in
    if next == 0
      || not (h.block next).free
      || not (next == (b + header_size + (h.block b).size) % 2 ^ 64)
    then h
    else remove
        (set_block h b (record (h.block b) {
          size = ((h.block b).size + header_size + (h.block next).size) % 2 ^ 64;
        }))
        next

-- `block_split`
unfoldable pub split : Heap → ℕ → ℕ → Heap
split h b requested =
    if ltb (h.block b).size ((requested + header_size + min_split) % 2 ^ 64)
    then h
    else let rest = (b + header_size + requested) % 2 ^ 64 in
      let made = set_block h rest (record {
        magic = heap_magic;
        size = (h.block b).size - requested - header_size;
        free = true;
        prev = b;
        next = (h.block b).next;
      }) in
      let joined =
        if (made.block b).next == 0
        then record made { tail = rest }
        else set_prev made (made.block b).next rest in
      set_block joined b (record (joined.block b) { next = rest; size = requested })

-- The loop of `find_free_block` from a block on; 0 if there is none. A chain whose blocks lie in
-- the heap and do not overlap has no more blocks than the fuel.
unfoldable pub find_from : ℕ → Heap → ℕ → ℕ → ℕ
find_from zero h b size = 0
find_from (suc fuel) h b size =
    let rest = find_from fuel h (h.block b).next size in
    if b == 0 then 0 else if (h.block b).free && leb size (h.block b).size then b else rest

unfoldable pub find_free_block : Heap → ℕ → ℕ
unfolding find_from
find_free_block h size = find_from (heap_size / header_size + 1) h h.head size

-- The loop of `map_heap_pages` that takes back `left` pages below `base + mapped`, as far as they are
-- mapped; failures of the two calls are passed over.
unfoldable pub unmap_pages : ℕ → Vmm → ℕ → Vmm
unmap_pages zero v base = v
unmap_pages (suc left) v base =
    let virt = (base + left * page_size) % 2 ^ 64 in
    let rest = λ (w : Vmm). unmap_pages left w base in
    elim (translate v v.active_root virt true) [
      | err e ↦ rest v
      | ok (phys, flags) ↦
          let w = (unmap_page v v.active_root virt).1 in
          rest (record w { pmm = (Pmm.free w.pmm phys).1 })
    ]

-- The loop of `map_heap_pages`, with `left` pages to go after `mapped` of them.
unfoldable pub map_pages : ℕ → ℕ → Vmm → ℕ → Status × Vmm
unfolding unmap_pages
map_pages zero mapped v base = (ok tt, v)
map_pages (suc left) mapped v base =
    let (r, pmm) = Pmm.alloc v.pmm true in
    elim r [
      | err e ↦ (err e, record v { pmm = pmm })
      | ok phys ↦
          let (status, w) =
            map_page (record v { pmm = pmm }) v.active_root ((base + mapped * page_size) % 2 ^ 64)
              phys 1 in
          elim status [
            | ok _ ↦ map_pages left (mapped + 1) w base
            | err e ↦ (err e, unmap_pages mapped (record w { pmm = (Pmm.free w.pmm phys).1 }) base)
          ]
    ]

-- The block that `heap_extend` makes of the new pages, joined with a free one before it.
unfoldable pub add_block : Heap → ℕ → Heap
unfolding insert_tail coalesce_forward
add_block h commit_size =
    let b = h.commit_end in
    let made =
      insert_tail
        (set_block h b (record (h.block b) {
          magic = heap_magic;
          size = commit_size - header_size;
          free = true;
        }))
        b in
    let grown = record made { commit_end = h.commit_end + commit_size } in
    let prev = (grown.block b).prev in
    if not (prev == 0) && (grown.block prev).free then coalesce_forward grown prev else grown

abbrev pub commit_size_for : ℕ → ℕ
commit_size_for min_payload =
    let aligned = align_up_size (header_size + min_payload) page_size in
    if ltb aligned initial_size then initial_size else aligned

-- `heap_extend`
unfoldable pub extend : Heap → ℕ → Status × Heap
unfolding add_block
extend h min_payload =
    if ltb (2 ^ 64 - 1 - min_payload) header_size
    then (err nomem, h)
    else let commit_size = commit_size_for min_payload in
      if ltb (2 ^ 64 - 1 - commit_size) h.commit_end
        || ltb (heap_base + heap_size) (h.commit_end + commit_size)
      then (err nomem, h)
      else let (status, v) = map_pages (commit_size / page_size) 0 h.vmm h.commit_end in
        elim status [
          | err e ↦ (err e, record h { vmm = v })
          | ok _ ↦ (ok tt, add_block (record h { vmm = v }) commit_size)
        ]

-- `scdk_heap_init`
unfoldable pub init : Heap → Status × Heap
init h =
    if h.initialized
    then (err busy, h)
    else chained (extend (record h { head = 0; tail = 0; commit_end = heap_base }) 0)
        λ _ h'. (ok tt, record h' { initialized = true })

-- The end of `scdk_kalloc`, on the block found, or 0.
unfoldable pub take_block : Heap → ℕ → ℕ → ℕ × Heap
unfolding split
take_block h b requested =
    if b == 0
    then (0, h)
    else let h' = split h b requested in
      (block_payload b, set_block h' b (record (h'.block b) { free = false }))

-- `scdk_kalloc`: the payload's address, or 0.
unfoldable pub kalloc : Heap → ℕ → ℕ × Heap
unfolding take_block
kalloc h size =
    let requested = align_up_size size 16 in
    if not h.initialized
      || size == 0
      || ltb (heap_size - header_size) size
      || ltb requested size
      || ltb (heap_size - header_size) requested
    then (0, h)
    else let b = find_free_block h requested in
      if b == 0
      then (let (status, h') = extend h requested in
          elim status [
            | err e ↦ (0, h')
            | ok _ ↦ take_block h' (find_free_block h' requested) requested
          ])
      else take_block h b requested

-- `scdk_kzalloc`: the zeros go to the payload.
unfoldable pub kzalloc : Heap → ℕ → ℕ × Heap
kzalloc h size = kalloc h size

-- The writes of `scdk_kfree`.
unfoldable pub release : Heap → ℕ → Heap
unfolding coalesce_forward
release h b =
    let freed = coalesce_forward (set_block h b (record (h.block b) { free = true })) b in
    let prev = (freed.block b).prev in
    if not (prev == 0) && (freed.block prev).free then coalesce_forward freed prev else freed

-- `scdk_kfree`
unfoldable pub kfree : Heap → ℕ → Heap
unfolding release
kfree h ptr =
    let b = payload_block ptr in
    if ptr == 0
      || not h.initialized
      || not (ptr_in_heap h ptr)
      || not (ptr_in_heap h b)
      || not ((h.block b).magic == heap_magic)
      || (h.block b).free
    then h
    else release h b

-- `scdk_alloc_object_storage`
unfoldable pub alloc_object_storage : Heap → ℕ → ℕ → ℕ × Heap
alloc_object_storage h object_type size =
    if object_type == obj_none || size == 0 then (0, h) else kzalloc h size
