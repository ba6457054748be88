-- ===== src/Tests/Pages.antt =====
-- The page allocator and the checks of user memory at concrete inputs.
use scdk.Base.{ℕ, ◌+◌, ◌-◌, ◌*◌, ◌/◌, ◌≤◌, ◌<◌, ◌≡◌, ◌≢◌, ◌↔◌, refl, true, false, find_slot, arith}
use scdk.Status.{ok, err, busy}
use scdk.UserSpace
use scdk.UserSpace.{UserSpace, check_page, validate_range, user_virt_base, user_virt_top}
use scdk.UserSpace.Validate.{IsOpen, validate_range_iff}
use scdk.Pmm
use scdk.Pmm.{
  Pmm, Region, Regions, page_size, alloc, free, is_usable_page, is_reserved_page,
  collect_usable_region,
}
use scdk.Pmm.Pages.{IsValid, IsFree, alloc_takes, free-eq-ok, free_twice, alloc-free, free-IsValid}

-- One usable region of eight pages from page 16 on, all of them allocated.
abbrev none_free : Pmm
none_free = record {
  page_stack = λ i. 0;
  free_pages = 0;
  managed_pages = 8;
  allocated_pages = 8;
  usable = record { at = λ i. record { base = 65536; length = 32768; type = 0 }; count = 1 };
  reserved = record { at = λ i. record { base = 0; length = 0; type = 1 }; count = 0 };
  initialized = true;
}

abbrev one_free : Pmm
one_free = (free none_free 69632).1

freed : free none_free 69632 ≡ (ok tt, one_free)
unfolding free is_usable_page find_slot Pmm.range_contains_page is_reserved_page
freed = refl

none_free-IsValid : IsValid none_free
none_free-IsValid = record { bounded = omega arith; distinct = λ i j a b e. absurd (omega arith) }

abbrev all_taken : Pmm
all_taken = (alloc one_free true).1

taken : alloc one_free true ≡ (ok 69632, all_taken)
unfolding alloc free is_usable_page find_slot Pmm.range_contains_page is_reserved_page
taken = refl

free-eq-ok_example :
    (is_usable_page none_free 69632 ≡ true)
    × (is_reserved_page none_free 69632 ≡ false)
    × (IsFree none_free 69632 → ⊥)
    × IsFree one_free 69632
    × ((other : ℕ) → IsFree none_free other → IsFree one_free other)
free-eq-ok_example = free-eq-ok none_free 69632 freed

alloc_takes_example :
    IsFree one_free 69632
    × (IsFree all_taken 69632 → ⊥)
    × ((other : ℕ) → other ≢ 69632 → IsFree one_free other → IsFree all_taken other)
    × ((other : ℕ) → IsFree all_taken other → IsFree one_free other)
    × (69632 ≡ one_free.page_stack (one_free.free_pages - 1))
    × (all_taken.free_pages + 1 ≡ one_free.free_pages)
    × ((i : ℕ) → i < all_taken.free_pages → all_taken.page_stack i ≡ one_free.page_stack i)
alloc_takes_example =
    alloc_takes one_free true (free-IsValid none_free 69632 none_free-IsValid) taken

free_twice_example : free one_free 69632 ≡ (err busy, one_free)
free_twice_example = free_twice none_free 69632 freed

alloc-free_example :
    ((alloc one_free true).0 ≡ ok 69632)
    × ((alloc one_free true).1.free_pages ≡ none_free.free_pages)
    × ((i : ℕ)
        → i < none_free.free_pages
        → (alloc one_free true).1.page_stack i ≡ none_free.page_stack i)
alloc-free_example = alloc-free none_free 69632 freed

-- Every page is mapped for the user, for reading only.
abbrev read_only : UserSpace
read_only = record { flags_at = λ a. ok 2; byte_at = λ a. a }

validate_range_iff_example : (validate_range read_only 0x100ff0 32 false ≡ ok tt) ↔ (
    (0 < 32)
    × (user_virt_base ≤ 0x100ff0)
    × (0x100ff0 + 32 ≤ user_virt_top)
    × ((q : ℕ)
        → 0x100ff0 / UserSpace.page_size ≤ q
        → q ≤ (0x100ff0 + 32 - 1) / UserSpace.page_size
        → IsOpen read_only false (q * UserSpace.page_size)))
validate_range_iff_example = validate_range_iff read_only 0x100ff0 32 false (omega arith)
