-- ===== src/AddressSpace/Pages.antt =====
-- What a mapping in an address space does: the page translates as asked, by the same token, and the
-- kernel's pages stay.
use scdk.Base.{
  ℕ, ◌+◌, ◌-◌, ◌*◌, ◌/◌, ◌%◌, ◌^◌, bit_or, ◌≤◌, ◌<◌, ◌≡◌, ◌≢◌, refl, sym, ◌∙◌, ap, subst, inl, inr,
  true, Bool-cases, arith, ◌==◌,
}
use scdk.Status.{Status, ok, Result-cases}
use scdk.Cap
use scdk.Cap.{CapEntry, right_read, has_rights}
use scdk.Cap.Rights.{check_weaken}
use scdk.UserSpace.{user_virt_base, user_virt_top}
use scdk.Vmm.{Vmm, map_page, is_canonical}
use scdk.Vmm as Vmm
use scdk.Vmm.Tree.{Shape}
use scdk.Vmm.Isolate.{translate-map_page, translate-map_page_other}
use scdk.AddressSpace.{
  AddressSpace, Memory, on_vmm, obj_address_space, vmm_of, caps_of, set_vmm, map_rights,
  lookup_aspace, check_map_rights, validate_user_page, check_map, map, translate,
}

-- A token finds the same address space with fewer rights.
lookup_aspace_weaken :
    (m : Memory) (cap required part : ℕ) {a : AddressSpace}
    → part ≢ 0
    → has_rights required part ≡ true
    → lookup_aspace m cap required ≡ ok a
    → lookup_aspace m cap part ≡ ok a
unfolding lookup_aspace
lookup_aspace_weaken m cap required part pos within h =
    elim (Result-cases (Cap.check (caps_of m) cap required obj_address_space)) [
      | inr (e, bad) ↦ absurd (ground arith)
      | inl (entry, good) ↦
          let weak = check_weaken (caps_of m) cap required part obj_address_space pos within good in
          ground arith
    ]

rights_read : (flags : ℕ) → has_rights (map_rights flags) right_read ≡ true
rights_read flags = elim (Bool-cases (Vmm.bit 0 flags == 1)) [
  | inl e ↦ rw e refl
  | inr e ↦ rw e refl
]

-- A token finds the same address space when the page tables alone have changed.
lookup_aspace_same :
    (m : Memory) (v : Vmm) (cap required : ℕ)
    → lookup_aspace (set_vmm m v) cap required ≡ lookup_aspace m cap required
unfolding lookup_aspace
lookup_aspace_same m v cap required = refl

user_page :
    (vaddr : ℕ)
    → validate_user_page vaddr ≡ ok tt
    → (vaddr % 4096 ≡ 0) × (user_virt_base ≤ vaddr) × (vaddr ≤ user_virt_top - 4096)
unfolding validate_user_page
user_page vaddr h = (ground arith, ground arith, ground arith)

check_map-eq-ok :
    (m : Memory) (cap vaddr paddr flags : ℕ) {a : AddressSpace}
    → check_map m cap vaddr paddr flags ≡ ok a
    → (lookup_aspace m cap (map_rights flags) ≡ ok a) × (validate_user_page vaddr ≡ ok tt)
unfolding check_map check_map_rights
check_map-eq-ok m cap vaddr paddr flags h =
    elim (Result-cases (lookup_aspace m cap (map_rights flags))) [
      | inr (e, bad) ↦ absurd (ground arith)
      | inl (a', good) ↦ elim (Result-cases (validate_user_page vaddr)) [
        | inr (e, bad) ↦ absurd (ground arith)
        | inl (u, valid) ↦ (ground arith, ground arith)
      ]
    ]

on_vmm-eq-ok :
    (m : Memory) (r : Status × Vmm) {m' : Memory}
    → on_vmm m r ≡ (ok tt, m')
    → (v : Vmm) × (r ≡ (ok tt, v)) × (set_vmm m v ≡ m')
on_vmm-eq-ok m (status, v) h = (v, ap (λ s. (s, v)) (ap (λ r. r.0) h), ap (λ r. r.1) h)

map-checked :
    (m : Memory) (cap vaddr paddr flags : ℕ) {a : AddressSpace}
    → check_map m cap vaddr paddr flags ≡ ok a
    → map m cap vaddr paddr flags
      ≡ on_vmm m (map_page (vmm_of m) a.root_phys vaddr paddr (bit_or flags 2))
unfolding map
map-checked m cap vaddr paddr flags checks = rw checks refl

translate-found :
    (m : Memory) (cap b : ℕ) {a : AddressSpace} {found : ℕ × ℕ}
    → lookup_aspace m cap right_read ≡ ok a
    → validate_user_page (b / 4096 * 4096) ≡ ok tt
    → Vmm.translate (vmm_of m) a.root_phys b true ≡ ok found
    → translate m cap b true ≡ ok found
unfolding translate
translate-found m cap b reads valid there = rw reads (rw valid there)

-- What a successful mapping did.
map-map_page :
    (m : Memory) (cap vaddr paddr flags : ℕ) {a : AddressSpace} {m' : Memory}
    → check_map m cap vaddr paddr flags ≡ ok a
    → map m cap vaddr paddr flags ≡ (ok tt, m')
    → (v : Vmm) × (map_page (vmm_of m) a.root_phys vaddr paddr (bit_or flags 2) ≡ (ok tt, v))
      × (set_vmm m v ≡ m')
map-map_page m cap vaddr paddr flags {a} {m'} checks h =
    on_vmm-eq-ok m (map_page (vmm_of m) a.root_phys vaddr paddr (bit_or flags 2))
      (sym (map-checked m cap vaddr paddr flags checks) ∙ h)

-- After a user page is mapped in an address space whose tables are a tree, every address of the
-- page translates, by the same token, to the frame asked for, below 2 ^ 52, at its offset, for the
-- user and with the flags asked for.
pub translate-map :
    (m : Memory) (cap vaddr paddr flags b : ℕ) {a : AddressSpace} {m' : Memory}
    → Shape (vmm_of m) a.root_phys
    → paddr < 2 ^ 52
    → check_map m cap vaddr paddr flags ≡ ok a
    → map m cap vaddr paddr flags ≡ (ok tt, m')
    → b / 4096 ≡ vaddr / 4096
    → translate m' cap b true ≡ ok (paddr + b % 4096, bit_or flags 2)
translate-map m cap vaddr paddr flags b {a} {m'} s small checks h same =
    let (found, valid) = check_map-eq-ok m cap vaddr paddr flags checks in
    let (whole, low, high) = user_page vaddr valid in
    let (v, mapped, after) = map-map_page m cap vaddr paddr flags checks h in
    let start : b / 4096 * 4096 ≡ vaddr = omega arith in
    let top : b / 2 ^ 48 ≡ 0 = omega arith in
    let canonical : is_canonical b ≡ true = rw top refl in
    let reads =
      lookup_aspace_same m v cap right_read
      ∙ lookup_aspace_weaken m cap (map_rights flags) right_read (λ e. absurd (omega arith))
          (rights_read flags) found in
    let there =
      translate-map_page (vmm_of m) a.root_phys vaddr paddr (bit_or flags 2) b s small mapped
        (omega arith) canonical in
    subst (λ (x : Memory). translate x cap b true ≡ ok (paddr + b % 4096, bit_or flags 2)) after
      (translate-found (set_vmm m v) cap b reads (rw start valid) there)

-- Mapping a user page in an address space whose tables are a tree leaves the translations of all
-- kernel addresses.
kernel_pages-map :
    (m : Memory) (cap vaddr paddr flags b : ℕ) {a : AddressSpace} {m' : Memory} {found : ℕ × ℕ}
    → Shape (vmm_of m) a.root_phys
    → check_map m cap vaddr paddr flags ≡ ok a
    → map m cap vaddr paddr flags ≡ (ok tt, m')
    → 2 ^ 64 - 2 ^ 47 ≤ b
    → b < 2 ^ 64
    → Vmm.translate (vmm_of m) a.root_phys b true ≡ ok found
    → Vmm.translate (vmm_of m') a.root_phys b true ≡ ok found
kernel_pages-map m cap vaddr paddr flags b {a} {m'} {found} s checks h low high there =
    let (_, valid) = check_map-eq-ok m cap vaddr paddr flags checks in
    let (_, _, below) = user_page vaddr valid in
    let (v, mapped, after) = map-map_page m cap vaddr paddr flags checks h in
    subst (λ (x : Memory). Vmm.translate (vmm_of x) a.root_phys b true ≡ ok found) after
      (translate-map_page_other (vmm_of m) a.root_phys vaddr paddr (bit_or flags 2) b s mapped
        (λ e. absurd (omega arith)) there)
