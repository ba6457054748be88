-- ===== src/Pmm/Collect.antt =====
-- What the loop of `collect_usable_region` puts on the stack: the region's pages, in order.
use scdk.Base.{
  ℕ, zero, suc, ◌+◌, ◌-◌, ◌*◌, ◌/◌, ◌^◌, ◌≤◌, ◌<◌, ◌≡◌, refl, sym, ◌∙◌, ap, inl, inr, false, arith,
  leb, ltb, ◌==◌, Bool-cases, update, subst,
}
use scdk.Status.{Status, ok}
use scdk.Pmm.{Pmm, page_size, max_pages, add64, collect_page, collect_pages, collect_usable_region}

-- `n` pages from page number `first` on have gone on the stack of `p`, and nothing below them moved.
pub record Collected (p : Pmm) (first n : ℕ) (q : Pmm) : Type 0 where
  pub free : q.free_pages ≡ p.free_pages + n
  pub managed : q.managed_pages ≡ p.managed_pages + n
  pub pushed : (i : ℕ) → i < n → q.page_stack (p.free_pages + i) ≡ (first + i) * page_size
  pub kept : (i : ℕ) → i < p.free_pages → q.page_stack i ≡ p.page_stack i

Collected-none : (p : Pmm) (first n : ℕ) → n ≡ 0 → Collected p first n p
Collected-none p first n e = record {
  free = omega arith;
  managed = omega arith;
  pushed = λ i lt. absurd (omega arith);
  kept = λ i lt. refl;
}

Collected-more :
    (p : Pmm) (first n : ℕ) (q : Pmm)
    → Collected (collect_page p (first * page_size)) (first + 1) n q
    → Collected p first (suc n) q
Collected-more p first n q c = record {
  free = omega (arith, c.free);
  managed = omega (arith, c.managed);
  pushed = pushed;
  kept = λ i lt. c.kept i (omega arith) ∙ ground arith;
}
  where
    pushed : (i : ℕ) → i < suc n → q.page_stack (p.free_pages + i) ≡ (first + i) * page_size
    pushed zero lt =
        ap q.page_stack (omega arith)
        ∙ c.kept p.free_pages (omega arith)
        ∙ (let e : update p.page_stack p.free_pages (first * page_size) p.free_pages
                ≡ first * page_size =
              ground arith in
            e ∙ omega arith)
    pushed (suc i) lt = ap q.page_stack (omega arith) ∙ c.pushed i (omega arith) ∙ omega arith

-- The loop ended well and left the pages on the stack.
abbrev pub Collects : Pmm → ℕ → ℕ → Status × Pmm → Type 0
Collects p first n r = (r.0 ≡ ok tt) × Collected p first n r.1

collect_pages_stop :
    (fuel : ℕ) (p : Pmm) (n : ℕ)
    → (n + 1) * page_size < 2 ^ 64
    → collect_pages (suc fuel) p (n * page_size) (n * page_size) ≡ (ok tt, p)
unfolding collect_pages
collect_pages_stop fuel p n small = ground arith

collect_pages_step :
    (fuel : ℕ) (p : Pmm) (first end : ℕ)
    → first < end
    → (end + 1) * page_size < 2 ^ 64
    → p.free_pages < max_pages
    → collect_pages (suc fuel) p (first * page_size) (end * page_size)
      ≡ collect_pages fuel
          (collect_page p (first * page_size))
          ((first + 1) * page_size)
          (end * page_size)
unfolding collect_pages
collect_pages_step fuel p first end lt small room =
    let next : add64 (first * page_size) page_size ≡ (first + 1) * page_size = omega arith in
    let go : ltb (end * page_size) (add64 (first * page_size) page_size) ≡ false = ground arith in
    let fits : leb max_pages p.free_pages ≡ false = ground arith in rw (go, fits, next) refl

-- With room for them all, every page from `first` up to `end` is collected, and the loop ends well.
collect_pages-Collects :
    (fuel : ℕ) (p : Pmm) (first end : ℕ)
    → first ≤ end
    → end < first + fuel
    → (end + 1) * page_size < 2 ^ 64
    → p.free_pages + (end - first) ≤ max_pages
    → Collects p first (end - first) (collect_pages fuel p (first * page_size) (end * page_size))
collect_pages-Collects zero p first end le lt small room = absurd (omega arith)
collect_pages-Collects (suc fuel) p first end le lt small room = elim (Bool-cases (first == end)) [
  | inl here ↦
      let same : first ≡ end = ground arith in
      rw (same) (
        subst (Collects p end (end - end)) (sym (collect_pages_stop fuel p end small))
          (refl, Collected-none p end _ (omega arith)))
  | inr more ↦
      let below : first < end = ground arith in
      let count : end - first ≡ suc (end - (first + 1)) = omega arith in
      let r =
        collect_pages-Collects fuel (collect_page p (first * page_size)) (first + 1) end
          (omega arith) (omega arith) small (omega arith) in
      subst (Collects p first (end - first))
        (sym (collect_pages_step fuel p first end below small (omega arith)))
        (r.0, rw count (Collected-more p first _ _ r.1))
]

-- `collect_usable_region` on the pages from `first` to `end`, when the stack has room for them.
collect_usable_region-Collects :
    (p : Pmm) (first end : ℕ)
    → first ≤ end
    → (end + 1) * page_size < 2 ^ 64
    → p.free_pages + (end - first) ≤ max_pages
    → Collects p first (end - first) (collect_usable_region p (first * page_size) (end * page_size))
unfolding collect_usable_region
collect_usable_region-Collects p first end le small room =
    let fuel : end * page_size / page_size - first * page_size / page_size + 1 ≡ end - first + 1 =
      omega arith in
    rw fuel (collect_pages-Collects (end - first + 1) p first end le (omega arith) small room)
