-- ===== src/Vmm/Tree.antt =====
-- Page tables as a tree: levels, the one entry that leads to each table, and the path of an address.
use scdk.Base.{
  ℕ, suc, ◌%◌, ◌^◌, ◌<◌, ◌≡◌, sym, ap, ◌∙◌, subst, inl, inr, Bool, true, false, arith, Bool-cases,
}
use scdk.Status.{ok, chained, chained-eq-ok}
use scdk.Pmm.Pages.{IsFree}
use scdk.Pmm.Pages as Pages
use scdk.Vmm.{
  Vmm, is_present, is_huge, address, pml4_index, pdpt_index, pd_index, leaf_table, next_table,
}

-- An entry of a table leads to the next table.
pub record Leads (v : Vmm) (table index next : ℕ) : Type 0 where
  pub present : is_present (v.tables table index) ≡ true
  pub small : is_huge (v.tables table index) ≡ false
  pub target : address (v.tables table index) ≡ next

-- The tables under one root: the root has level 4, a leaf table level 1, and what is no table of the
-- tree level 0. A table is entered from one place only, and no free page is a table.
pub record Shape (v : Vmm) (root : ℕ) : Type 0 where
  pub level : ℕ → ℕ
  pub parent : ℕ → ℕ
  pub place : ℕ → ℕ
  pub root_level : level root ≡ 4
  pub below :
      (table index next l : ℕ)
      → Leads v table index next
      → level table ≡ suc (suc l)
      → level next ≡ suc l
  pub entered :
      (table index next l : ℕ)
      → Leads v table index next
      → level table ≡ suc (suc l)
      → (parent next ≡ table) × (place next ≡ index)
  pub pages : Pages.IsValid v.pmm
  pub fresh : (page : ℕ) → IsFree v.pmm page → level page ≡ 0
  pub aligned : (page : ℕ) → IsFree v.pmm page → (page % 4096 ≡ 0) × (page < 2 ^ 52)

-- The tables on the way to the leaf table of an address.
pub record Route (v : Vmm) (root virt leaf : ℕ) : Type 0 where
  pub pdpt : ℕ
  pub pd : ℕ
  pub first : Leads v root (pml4_index virt) pdpt
  pub second : Leads v pdpt (pdpt_index virt) pd
  pub third : Leads v pd (pd_index virt) leaf

pub leaf-level :
    (v : Vmm) (root virt leaf : ℕ) (s : Shape v root) (r : Route v root virt leaf)
    → (s.level r.pdpt ≡ 3) × (s.level r.pd ≡ 2) × (s.level leaf ≡ 1)
leaf-level v root virt leaf s r =
    let a = s.below root (pml4_index virt) r.pdpt 2 r.first s.root_level in
    let b = s.below r.pdpt (pdpt_index virt) r.pd 1 r.second a in
    (a, b, s.below r.pd (pd_index virt) leaf 0 r.third b)

-- Two addresses that share their leaf table agree on all indices but the last.
pub leaf_unique :
    (v : Vmm) (root a b leaf : ℕ) (s : Shape v root) (p : Route v root a leaf)
    (q : Route v root b leaf)
    → (pml4_index a ≡ pml4_index b) × (pdpt_index a ≡ pdpt_index b) × (pd_index a ≡ pd_index b)
leaf_unique v root a b leaf s p q =
    let (p3, p2, p1) = leaf-level v root a leaf s p in
    let (q3, q2, q1) = leaf-level v root b leaf s q in
    let pd_a = s.entered p.pd (pd_index a) leaf 0 p.third p2 in
    let pd_b = s.entered q.pd (pd_index b) leaf 0 q.third q2 in
    let pdpt_a = s.entered p.pdpt (pdpt_index a) p.pd 1 p.second p3 in
    let pdpt_b = s.entered q.pdpt (pdpt_index b) q.pd 1 q.second q3 in
    let root_a = s.entered root (pml4_index a) p.pdpt 2 p.first s.root_level in
    let root_b = s.entered root (pml4_index b) q.pdpt 2 q.first s.root_level in
    let same_pd : p.pd ≡ q.pd = sym (pd_a.0) ∙ pd_b.0 in
    let same_pdpt : p.pdpt ≡ q.pdpt = sym (pdpt_a.0) ∙ ap s.parent same_pd ∙ pdpt_b.0 in
    (
      sym (root_a.1) ∙ ap s.place same_pdpt ∙ root_b.1,
      sym (pdpt_a.1) ∙ ap s.place same_pd ∙ pdpt_b.1,
      sym (pd_a.1) ∙ pd_b.1,
    )

-- A walk takes an entry that is there, and changes nothing.
pub Leads-next_table :
    (v : Vmm) (table index next flags : ℕ) (create : Bool)
    → Leads v table index next
    → next_table v table index create flags ≡ (ok next, v)
unfolding next_table
Leads-next_table v table index next flags create l =
    rw (l.present) (rw (l.small) (ap (λ (n : ℕ). (ok n, v)) l.target))

pub Route-leaf_table :
    (v : Vmm) (root virt leaf flags : ℕ) (create : Bool)
    → Route v root virt leaf
    → leaf_table v root virt create flags ≡ (ok leaf, v)
unfolding leaf_table
Route-leaf_table v root virt leaf flags create r =
    rw (Leads-next_table v root (pml4_index virt) r.pdpt flags create r.first) (
      rw (Leads-next_table v r.pdpt (pdpt_index virt) r.pd flags create r.second)
        (Leads-next_table v r.pd (pd_index virt) leaf flags create r.third))

-- A walk that makes nothing follows an entry that is there.
pub next_table-Leads :
    (v : Vmm) (table index flags : ℕ) {next : ℕ}
    → (next_table v table index false flags).0 ≡ ok next
    → Leads v table index next
unfolding next_table
next_table-Leads v table index flags {next} h =
    elim (Bool-cases (is_present (v.tables table index))) [
      | inr gone ↦ absurd (ground arith)
      | inl here ↦ elim (Bool-cases (is_huge (v.tables table index))) [
        | inl huge ↦ absurd (ground arith)
        | inr small ↦ record { present = here; small = small; target = ground arith }
      ]
    ]

pub leaf_table-Route :
    (v : Vmm) (root virt flags : ℕ) {leaf : ℕ}
    → (leaf_table v root virt false flags).0 ≡ ok leaf
    → Route v root virt leaf
unfolding leaf_table
leaf_table-Route v root virt flags {leaf} h =
    let (pdpt, a, rest) = chained-eq-ok (next_table v root (pml4_index virt) false flags) _ h in
    let first = next_table-Leads v root (pml4_index virt) flags a in
    let one : (next_table v root (pml4_index virt) false flags).1 ≡ v =
      ap (λ r. r.1) (Leads-next_table v root (pml4_index virt) pdpt flags false first) in
    let rest' =
      subst
        (λ (x : Vmm).
          (chained (next_table x pdpt (pdpt_index virt) false flags)
            (λ pd y. next_table y pd (pd_index virt) false flags)).0
          ≡ ok leaf)
        one rest in
    let (pd, b, last) = chained-eq-ok (next_table v pdpt (pdpt_index virt) false flags) _ rest' in
    let second = next_table-Leads v pdpt (pdpt_index virt) flags b in
    let two : (next_table v pdpt (pdpt_index virt) false flags).1 ≡ v =
      ap (λ r. r.1) (Leads-next_table v pdpt (pdpt_index virt) pd flags false second) in
    record {
      pdpt = pdpt;
      pd = pd;
      first = first;
      second = second;
      third =
          next_table-Leads v pd (pd_index virt) flags (
            subst (λ (x : Vmm). (next_table x pd (pd_index virt) false flags).0 ≡ ok leaf) two
              last);
    }
