-- ===== src/Pmm/Pages.antt =====
-- The page allocator: no page is handed out twice, none is freed twice, and only pages of usable
-- memory come back.
use scdk.Base.{
  ℕ, ◌+◌, ◌-◌, ◌≤◌, ◌<◌, ◌≡◌, ◌≢◌, refl, sym, ◌∙◌, inl, inr, Bool, true, false, arith, ltb, ◌==◌,
  if◌then◌else◌, Option-cases, Bool-cases, ap, subst, update, update_ne, find_slot,
  find_slot-eq-some, find_slot-eq-none,
}
use scdk.Status.{ok, err, busy}
use scdk.Pmm.{
  Pmm, max_pages, misaligned, page_stack_contains, is_usable_page, is_reserved_page, alloc, free,
}

-- A page is on the stack of free pages.
abbrev pub IsFree : Pmm → ℕ → Type 0
IsFree p phys = (i : ℕ) × (i < p.free_pages) × (p.page_stack i ≡ phys)

pub record IsValid (p : Pmm) : Type 0 where
  pub bounded : p.free_pages ≤ max_pages
  pub distinct :
      (i j : ℕ) → i < p.free_pages → j < p.free_pages → p.page_stack i ≡ p.page_stack j → i ≡ j

contains-IsFree : (p : Pmm) (phys : ℕ) → page_stack_contains p phys ≡ true → IsFree p phys
contains-IsFree p phys h =
    elim (Option-cases (find_slot (λ i. p.page_stack i == phys) p.free_pages 0)) [
      | inl missing ↦ absurd (ground arith)
      | inr (i, found) ↦
          let r = find_slot-eq-some (λ i. p.page_stack i == phys) p.free_pages 0 found in
          (i, omega arith, ground arith)
    ]

missing-ne :
    (p : Pmm) (phys i : ℕ)
    → page_stack_contains p phys ≡ false
    → i < p.free_pages
    → p.page_stack i ≢ phys
missing-ne p phys i h lt =
    elim (Option-cases (find_slot (λ i. p.page_stack i == phys) p.free_pages 0)) [
      | inr (j, found) ↦ absurd (ground arith)
      | inl missing ↦
          let r =
            find_slot-eq-none (λ i. p.page_stack i == phys) p.free_pages 0 missing i (omega arith)
              (omega arith) in
          ground arith
    ]

-- Allocating and freeing keep the stack's pages distinct and within the array.
pub alloc-IsValid : (p : Pmm) (out : Bool) → IsValid p → IsValid (alloc p out).1
unfolding alloc
alloc-IsValid p out v = record {
  bounded = ground (arith, v.bounded);
  distinct = λ i j a b e. ground (arith, v.distinct i j);
}

pub free-IsValid : (p : Pmm) (phys : ℕ) → IsValid p → IsValid (free p phys).1
unfolding free
free-IsValid p phys v = record {
  bounded = ground (arith, v.bounded);
  distinct = λ i j a b e. ground (arith, v.distinct i j, missing-ne p phys i, missing-ne p phys j);
}

abbrev taken : Pmm → Pmm
taken p = record p { free_pages = p.free_pages - 1; allocated_pages = p.allocated_pages + 1 }

alloc-eq-ok :
    (p : Pmm) (out : Bool) {phys : ℕ} {p' : Pmm}
    → alloc p out ≡ (ok phys, p')
    → (0 < p.free_pages) × (phys ≡ p.page_stack (p.free_pages - 1)) × (p' ≡ taken p)
unfolding alloc
alloc-eq-ok p out h = (ground arith, ground arith, ground arith)

abbrev given : Pmm → ℕ → Pmm
given p phys = record p {
  page_stack = update p.page_stack p.free_pages phys;
  free_pages = p.free_pages + 1;
  allocated_pages = if ltb 0 p.allocated_pages then p.allocated_pages - 1 else 0;
}

record Given (p : Pmm) (phys : ℕ) (p' : Pmm) : Type 0 where
  ready : p.initialized ≡ true
  aligned : misaligned phys ≡ false
  usable : is_usable_page p phys ≡ true
  unreserved : is_reserved_page p phys ≡ false
  missing : page_stack_contains p phys ≡ false
  room : p.free_pages < max_pages
  after : p' ≡ given p phys

free-Given : (p : Pmm) (phys : ℕ) {p' : Pmm} → free p phys ≡ (ok tt, p') → Given p phys p'
unfolding free
free-Given p phys h = record {
  ready = ground arith;
  aligned = ground arith;
  usable = ground arith;
  unreserved = ground arith;
  missing = ground arith;
  room = ground arith;
  after = ground arith;
}

-- The regions alone decide which pages are usable or reserved.
usable-given :
    (p : Pmm) (phys page : ℕ) → is_usable_page (given p phys) page ≡ is_usable_page p page
unfolding is_usable_page
usable-given p phys page = refl

reserved-given :
    (p : Pmm) (phys page : ℕ) → is_reserved_page (given p phys) page ≡ is_reserved_page p page
unfolding is_reserved_page is_usable_page
reserved-given p phys page = refl

given-IsFree : (p : Pmm) (phys : ℕ) → IsFree (given p phys) phys
given-IsFree p phys = (p.free_pages, omega arith, ground arith)

IsFree-contains : (p : Pmm) (phys : ℕ) → IsFree p phys → page_stack_contains p phys ≡ true
IsFree-contains p phys (i, lt, e) = elim (Bool-cases (page_stack_contains p phys)) [
  | inl found ↦ found
  | inr missing ↦ absurd (missing-ne p phys i missing lt e)
]

-- An allocated page leaves a valid stack: it was the top, which is gone, and the places below are as
-- they were; it is not free any more, and every other page is free exactly if it was.
pub alloc_takes :
    (p : Pmm) (out : Bool) {phys : ℕ} {p' : Pmm}
    → IsValid p
    → alloc p out ≡ (ok phys, p')
    → IsFree p phys
      × (IsFree p' phys → ⊥)
      × ((other : ℕ) → other ≢ phys → IsFree p other → IsFree p' other)
      × ((other : ℕ) → IsFree p' other → IsFree p other)
      × (phys ≡ p.page_stack (p.free_pages - 1))
      × (p'.free_pages + 1 ≡ p.free_pages)
      × ((i : ℕ) → i < p'.free_pages → p'.page_stack i ≡ p.page_stack i)
alloc_takes p out {phys} {p'} v h =
    let (pos, top, after) = alloc-eq-ok p out h in
    subst
      (λ q.
        IsFree p phys
        × (IsFree q phys → ⊥)
        × ((other : ℕ) → other ≢ phys → IsFree p other → IsFree q other)
        × ((other : ℕ) → IsFree q other → IsFree p other)
        × (phys ≡ p.page_stack (p.free_pages - 1))
        × (q.free_pages + 1 ≡ p.free_pages)
        × ((i : ℕ) → i < q.free_pages → q.page_stack i ≡ p.page_stack i))
      (sym after)
      (
        (p.free_pages - 1, omega arith, sym top),
        λ f. absurd (
            omega (
              arith,
              f.1,
              v.distinct f.0 (p.free_pages - 1) (omega (arith, f.1)) (omega arith) (f.2 ∙ top),
            )),
        λ other ne f.
            (f.0, other_index f.0 f.1 (λ e. ne (sym f.2 ∙ ap p.page_stack e ∙ sym top)), f.2),
        λ other f. (f.0, omega (arith, f.1), f.2),
        top,
        omega arith,
        λ i lt. refl,
      )
  where
    other_index : (i : ℕ) → i < p.free_pages → i ≢ p.free_pages - 1 → i < p.free_pages - 1
    other_index i lt ne = omega arith

-- A page is freed only if it is usable memory, touches no reserved region, and is not free already;
-- then it is free, and what was free still is.
pub free-eq-ok :
    (p : Pmm) (phys : ℕ) {p' : Pmm}
    → free p phys ≡ (ok tt, p')
    → (is_usable_page p phys ≡ true)
      × (is_reserved_page p phys ≡ false)
      × (IsFree p phys → ⊥)
      × IsFree p' phys
      × ((other : ℕ) → IsFree p other → IsFree p' other)
free-eq-ok p phys {p'} h =
    let g = free-Given p phys h in
    (
      g.usable,
      g.unreserved,
      λ f. missing-ne p phys f.0 g.missing f.1 f.2,
      subst (λ q. IsFree q phys) (sym g.after) (given-IsFree p phys),
      λ other f.
          subst (λ q. IsFree q other) (sym g.after)
            (
              f.0,
              omega (arith, f.1),
              update_ne p.page_stack p.free_pages f.0 phys (omega (arith, f.1)) ∙ f.2,
            ),
    )

-- Freeing a page that is free is refused, and changes nothing.
pub free_twice :
    (p : Pmm) (phys : ℕ) {p' : Pmm} → free p phys ≡ (ok tt, p') → free p' phys ≡ (err busy, p')
unfolding free
free_twice p phys {p'} h =
    let g = free-Given p phys h in
    rw g.after (
      rw
        (
          g.aligned,
          usable-given p phys phys,
          g.usable,
          reserved-given p phys phys,
          g.unreserved,
          IsFree-contains (given p phys) phys (given-IsFree p phys),
          g.ready,
        )
        refl)

-- A page freed is the next one allocated, and the stack is then as it was.
pub alloc-free :
    (p : Pmm) (phys : ℕ) {p' : Pmm}
    → free p phys ≡ (ok tt, p')
    → ((alloc p' true).0 ≡ ok phys)
      × ((alloc p' true).1.free_pages ≡ p.free_pages)
      × ((i : ℕ) → i < p.free_pages → (alloc p' true).1.page_stack i ≡ p.page_stack i)
unfolding alloc
alloc-free p phys h =
    let g = free-Given p phys h in
    let ready = g.ready in rw g.after (ground arith, ground arith, λ i lt. ground arith)
