-- ===== src/Pmm.antt =====
-- src/mm/pmm.c and src/include/scdk/mm.h: the stack of free physical pages, and the regions that the
-- boot loader's memory map describes. Log output is left out.
pub mod Pages
pub mod Collect
use scdk.Base.{
  ℕ, zero, suc, ◌+◌, ◌-◌, ◌*◌, ◌/◌, ◌%◌, ◌^◌, bit_and, Bool, true, false, not, ◌&&◌, ◌||◌, Option,
  none, some, List, [], ◌∷◌, ltb, leb, ◌==◌, if◌then◌else◌, update, find_slot,
}
use scdk.Status.{Result, Status, ok, err, inval, nomem, bounds, busy, notsup}

abbrev pub page_size : ℕ
page_size = 4096

abbrev pub max_pages : ℕ
max_pages = 262144

abbrev pub max_regions : ℕ
max_regions = 128

-- `LIMINE_MEMMAP_USABLE`
abbrev pub memmap_usable : ℕ
memmap_usable = 0

-- `struct scdk_pmm_region`; an entry of the memory map has the same three fields.
pub record Region : Type 0 where
  pub base : ℕ
  pub length : ℕ
  pub type : ℕ

-- An array of regions with its count.
pub record Regions : Type 0 where
  pub at : ℕ → Region
  pub count : ℕ

pub record Pmm : Type 0 where
  pub page_stack : ℕ → ℕ
  pub free_pages : ℕ
  pub managed_pages : ℕ
  pub allocated_pages : ℕ
  pub usable : Regions
  pub reserved : Regions
  pub initialized : Bool

-- 64-bit sums
abbrev pub add64 : ℕ → ℕ → ℕ
add64 a b = (a + b) % 2 ^ 64

-- `align_up` and `align_down` to the page size
abbrev pub align_down : ℕ → ℕ
align_down value = value / page_size * page_size

abbrev pub align_up : ℕ → ℕ
align_up value = align_down (add64 value (page_size - 1))

-- `(phys & (SCDK_PAGE_SIZE - 1u)) != 0u`
abbrev pub misaligned : ℕ → Bool
misaligned phys = not (bit_and phys (page_size - 1) == 0)

-- `range_contains_page`
unfoldable pub range_contains_page : Region → ℕ → Bool
range_contains_page r phys =
    let end = add64 r.base r.length in
    if ltb end r.base then false else leb r.base phys && leb (add64 phys page_size) end

-- `page_overlaps_region`
unfoldable pub page_overlaps_region : Region → ℕ → Bool
page_overlaps_region r phys =
    let page_end = add64 phys page_size in
    let region_end = add64 r.base r.length in
    if ltb page_end phys || ltb region_end r.base
    then true
    else ltb phys region_end && ltb r.base page_end

-- `record_region`: a region past the last place is dropped.
unfoldable pub record_region : Regions → Region → Regions
record_region rs r =
    if leb max_regions rs.count
    then rs
    else record { at = update rs.at rs.count r; count = rs.count + 1 }

-- A loop over the first `n` elements that looks for one.
abbrev pub any_below : ℕ → (ℕ → Bool) → Bool
any_below n test = elim (find_slot test n 0) [ none ↦ false | some i ↦ true ]

-- `page_stack_contains`
abbrev pub page_stack_contains : Pmm → ℕ → Bool
page_stack_contains p phys = any_below p.free_pages (λ i. p.page_stack i == phys)

-- `scdk_pmm_is_usable_page`
unfoldable pub is_usable_page : Pmm → ℕ → Bool
is_usable_page p phys =
    if misaligned phys
    then false
    else any_below p.usable.count (λ i. range_contains_page (p.usable.at i) phys)

-- `scdk_pmm_is_reserved_page`
unfoldable pub is_reserved_page : Pmm → ℕ → Bool
is_reserved_page p phys =
    if misaligned phys
    then true
    else if any_below p.reserved.count (λ i. page_overlaps_region (p.reserved.at i) phys)
    then true
    else not (is_usable_page p phys)

-- `page_stack[free_pages++] = page; managed_pages++;`
abbrev pub collect_page : Pmm → ℕ → Pmm
collect_page p page = record p {
  page_stack = update p.page_stack p.free_pages page;
  free_pages = p.free_pages + 1;
  managed_pages = p.managed_pages + 1;
}

-- The loop of `collect_usable_region` from `page` on. The fuel is the pages up to `end`; the sum
-- does not wrap, since `end` is a page's address.
unfoldable pub collect_pages : ℕ → Pmm → ℕ → ℕ → Status × Pmm
collect_pages zero p page end = (ok tt, p)
collect_pages (suc fuel) p page end =
    let rest = collect_pages fuel (collect_page p page) (add64 page page_size) end in
    if ltb end (add64 page page_size)
    then (ok tt, p)
    else if leb max_pages p.free_pages
    then (err busy, p)
    else rest

-- `collect_usable_region`
unfoldable pub collect_usable_region : Pmm → ℕ → ℕ → Status × Pmm
unfolding collect_pages
collect_usable_region p base end = collect_pages (end / page_size - base / page_size + 1) p base end

-- The end of one round of the loop of `scdk_pmm_init`. The flag says that the loop goes on.
abbrev add_region : Pmm → ℕ → ℕ → ℕ → Bool × Pmm
add_region p base end type =
    let r : Region = record { base = base; length = end - base; type = type } in
    if type == memmap_usable
    then (let (status, p') =
          collect_usable_region (record p { usable = record_region p.usable r }) base end in
        elim status [ ok _ ↦ (true, p') | err e ↦ (false, p') ])
    else (true, record p { reserved = record_region p.reserved r })

-- One round: null, empty, wrapped and small entries are passed over.
unfoldable pub add_entry : Pmm → Option Region → Bool × Pmm
add_entry p none = (true, p)
add_entry p (some entry) =
    let raw_end = add64 entry.base entry.length in
    let base = align_up entry.base in
    let end = align_down raw_end in
    if entry.length == 0 || ltb raw_end entry.base || leb end base
    then (true, p)
    else add_region p base end entry.type

unfoldable pub add_entries : Pmm → List (Option Region) → Pmm
add_entries p [] = p
add_entries p (entry ∷ entries) =
    let (go_on, p') = add_entry p entry in elim go_on [ true ↦ add_entries p' entries | false ↦ p' ]

-- `scdk_pmm_init` on the entries of the memory map; it has none where a pointer is null.
unfoldable pub init : Pmm → List (Option Region) → Status × Pmm
init p [] = (err inval, p)
init p (entry ∷ entries) =
    let cleared = record p {
      free_pages = 0;
      managed_pages = 0;
      allocated_pages = 0;
      usable = record (p.usable) { count = 0 };
      reserved = record (p.reserved) { count = 0 };
      initialized = false;
    } in
    let p' = add_entries cleared (entry ∷ entries) in
    if p'.managed_pages == 0 then (err nomem, p') else (ok tt, record p' { initialized = true })

-- `scdk_page_alloc`; `out` says that `out_phys` is not null.
unfoldable pub alloc : Pmm → Bool → Result ℕ × Pmm
alloc p out =
    if not out
    then (err inval, p)
    else if not p.initialized
    then (err notsup, p)
    else if p.free_pages == 0
    then (err nomem, p)
    else (
      ok (p.page_stack (p.free_pages - 1)),
      record p { free_pages = p.free_pages - 1; allocated_pages = p.allocated_pages + 1 },
    )

-- `scdk_page_free`
unfoldable pub free : Pmm → ℕ → Status × Pmm
free p phys =
    if not p.initialized
    then (err notsup, p)
    else if misaligned phys
    then (err inval, p)
    else if not (is_usable_page p phys) || is_reserved_page p phys
    then (err bounds, p)
    else if page_stack_contains p phys
    then (err busy, p)
    else if leb max_pages p.free_pages
    then (err nomem, p)
    else (
      ok tt,
      record p {
        page_stack = update p.page_stack p.free_pages phys;
        free_pages = p.free_pages + 1;
        allocated_pages = if ltb 0 p.allocated_pages then p.allocated_pages - 1 else 0;
      },
    )
