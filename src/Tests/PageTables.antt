-- ===== src/Tests/PageTables.antt =====
-- The page tables at concrete inputs: an empty root at page 32, and six free pages.
use scdk.Base.{ℕ, ◌+◌, ◌-◌, ◌*◌, ◌%◌, ◌^◌, ◌<◌, ◌≡◌, ◌≢◌, refl, true, ◌==◌, if◌then◌else◌, arith}
use scdk.Status.{ok, err, inval, noent}
use scdk.Pmm
use scdk.Pmm.{Pmm}
use scdk.Pmm.Pages.{IsFree}
use scdk.Vmm.{Vmm, is_present, is_canonical, map_page, unmap_page, translate}
use scdk.Vmm.Tree.{Shape, Leads}
use scdk.Vmm.Map.{page_number}
use scdk.Vmm.Isolate.{
  translate-map_page, translate-map_page_other, map_page-Shape, translate-unmap_page,
  map_page_aliases,
}

abbrev six_free : Pmm
six_free = record {
  page_stack = λ i. (16 + i) * 4096;
  free_pages = 6;
  managed_pages = 6;
  allocated_pages = 0;
  usable = record { at = λ i. record { base = 65536; length = 24576; type = 0 }; count = 1 };
  reserved = record { at = λ i. record { base = 0; length = 0; type = 1 }; count = 0 };
  initialized = true;
}

abbrev pub empty_root : Vmm
empty_root = record {
  pmm = six_free;
  tables = λ page i. 0;
  active_root = 131072;
  hhdm_offset = 2 ^ 63;
  initialized = true;
}

empty_root-Leads : (table index next : ℕ) → Leads empty_root table index next → ⊥
empty_root-Leads table index next l = let p = l.present in absurd (ground arith)

free_page : (page : ℕ) → IsFree six_free page → (page % 4096 ≡ 0) × (page < 2 ^ 17)
free_page page (i, lt, e) = (omega arith, omega arith)

pub empty_root-Shape : Shape empty_root 131072
empty_root-Shape = record {
  level = λ page. if page == 131072 then 4 else 0;
  parent = λ page. 0;
  place = λ page. 0;
  root_level = refl;
  below = λ table index next l leads h. absurd (empty_root-Leads table index next leads);
  entered = λ table index next l leads h. absurd (empty_root-Leads table index next leads);
  pages = record { bounded = omega arith; distinct = λ i j a b e. omega arith };
  fresh = λ page free. let lt = (free_page page free).1 in ground arith;
  aligned = λ page free. ((free_page page free).0, let lt = (free_page page free).1 in omega arith);
}

-- The page at 2 ^ 22 goes to the frame at 2 ^ 20, for writing.
abbrev mapped : Vmm
mapped = (map_page empty_root 131072 0x400000 0x100000 1).1

maps : map_page empty_root 131072 0x400000 0x100000 1 ≡ (ok tt, mapped)
unfolding map_page scdk.Vmm.check_map scdk.Vmm.validate_root scdk.Vmm.validate_address
    scdk.Vmm.leaf_table scdk.Vmm.next_table scdk.Vmm.allocate_table Pmm.alloc scdk.Vmm.finish_map
maps = refl

-- Then the page after it.
abbrev mapped_two : Vmm
mapped_two = (map_page mapped 131072 0x401000 0x200000 3).1

maps_two : map_page mapped 131072 0x401000 0x200000 3 ≡ (ok tt, mapped_two)
unfolding map_page scdk.Vmm.check_map scdk.Vmm.validate_root scdk.Vmm.validate_address
    scdk.Vmm.leaf_table scdk.Vmm.next_table scdk.Vmm.allocate_table Pmm.alloc scdk.Vmm.finish_map
maps_two = refl

abbrev unmapped : Vmm
unmapped = (unmap_page mapped 131072 0x400000).1

unmaps : unmap_page mapped 131072 0x400000 ≡ (ok tt, unmapped)
unfolding unmap_page scdk.Vmm.validate_root map_page scdk.Vmm.check_map scdk.Vmm.validate_address
    scdk.Vmm.leaf_table scdk.Vmm.next_table scdk.Vmm.allocate_table Pmm.alloc scdk.Vmm.finish_map
    scdk.Vmm.finish_unmap
unmaps = refl

translate-map_page_example : translate mapped 131072 0x400123 true ≡ ok (0x100123, 1)
translate-map_page_example =
    translate-map_page empty_root 131072 0x400000 0x100000 1 0x400123 empty_root-Shape (omega arith)
      maps refl refl

translate-map_page_other_example : translate mapped_two 131072 0x400123 true ≡ ok (0x100123, 1)
translate-map_page_other_example =
    translate-map_page_other mapped 131072 0x401000 0x200000 3 0x400123
      (map_page-Shape empty_root 131072 0x400000 0x100000 1 empty_root-Shape maps) maps_two
      (omega arith)
      (translate-map_page empty_root 131072 0x400000 0x100000 1 0x400123 empty_root-Shape
        (omega arith) maps refl refl)

translate-unmap_page_example :
    (page_number 0x400123 ≡ page_number 0x400000
      → translate unmapped 131072 0x400123 true
        ≡ err (if is_canonical 0x400123 then noent else inval))
    × ((found : ℕ × ℕ)
        → page_number 0x400123 ≢ page_number 0x400000
        → translate mapped 131072 0x400123 true ≡ ok found
        → translate unmapped 131072 0x400123 true ≡ ok found)
translate-unmap_page_example =
    translate-unmap_page mapped 131072 0x400000 0x400123
      (map_page-Shape empty_root 131072 0x400000 0x100000 1 empty_root-Shape maps) unmaps

-- A page above the canonical lower half.
abbrev aliased : Vmm
aliased = (map_page empty_root 131072 (2 ^ 47 + 0x400000) 0x100000 1).1

aliases : map_page empty_root 131072 (2 ^ 47 + 0x400000) 0x100000 1 ≡ (ok tt, aliased)
unfolding map_page scdk.Vmm.check_map scdk.Vmm.validate_root scdk.Vmm.validate_address
    scdk.Vmm.leaf_table scdk.Vmm.next_table scdk.Vmm.allocate_table Pmm.alloc scdk.Vmm.finish_map
aliases = refl

map_page_aliases_example :
    translate aliased 131072 (2 ^ 64 - 2 ^ 47 + 0x400000) true ≡ ok (0x100000, 1)
map_page_aliases_example =
    map_page_aliases empty_root 131072 0x400000 0x100000 1 empty_root-Shape (omega arith)
      (omega arith) aliases
