-- ===== src/Vmm/Walk.antt =====
-- The walk that makes missing tables keeps the tree, and every entry that was there.
use scdk.Base.{
  ℕ, suc, ◌+◌, ◌*◌, ◌/◌, ◌%◌, ◌^◌, ◌≤◌, ◌<◌, ◌≡◌, ◌≢◌, refl, sym, ap, ◌∙◌, subst, ◌⊎◌, inl, inr,
  true, false, arith, Bool-cases, ◌==◌, ==_iff, update, update_self, update_ne, bit_or,
  bit_or_disjoint,
}
use scdk.Status.{ok, Result-cases, chained_split}
use scdk.Pmm
use scdk.Pmm.{Pmm}
use scdk.Pmm.Pages.{IsFree, alloc-IsValid, alloc_takes}
use scdk.Pmm.Pages as Pages
use scdk.Vmm.{
  Vmm, is_present, is_huge, address, pml4_index, pdpt_index, pd_index, set_entry, allocate_table,
  table_entry, next_table, leaf_table,
}
use scdk.Vmm.Tree.{Leads, Shape, Route, leaf-level}

-- The tree may have grown: tables keep their level, and entries that were present stay.
pub record Extends (v : Vmm) (root : ℕ) (s : Shape v root) (v' : Vmm) : Type 0 where
  pub shape : Shape v' root
  pub keeps : (page : ℕ) → s.level page ≢ 0 → shape.level page ≡ s.level page
  pub stays :
      (page index : ℕ)
      → s.level page ≢ 0
      → is_present (v.tables page index) ≡ true
      → v'.tables page index ≡ v.tables page index
  pub started : v'.initialized ≡ v.initialized

pub Extends-same : (v : Vmm) (root : ℕ) (s : Shape v root) → Extends v root s v
Extends-same v root s = record {
  shape = s;
  keeps = λ page used. refl;
  stays = λ page index used here. refl;
  started = refl;
}

-- What a new table's entry says.
pub table_entry_fields :
    (page flags : ℕ)
    → page % 4096 ≡ 0
    → page < 2 ^ 52
    → flags ≤ 4
    → flags % 2 ≡ 0
    → (is_present (table_entry page flags) ≡ true)
      × (is_huge (table_entry page flags) ≡ false)
      × (address (table_entry page flags) ≡ page)
table_entry_fields page flags whole small few even =
    let q = page / 4096 in
    let split : page ≡ q * 2 ^ 12 = omega arith in
    let sum : table_entry page flags ≡ q * 2 ^ 12 + (3 + flags) =
      ap (λ (p : ℕ). bit_or p (3 + flags)) split ∙ bit_or_disjoint 12 q (3 + flags) (omega arith) in
    rw sum (
      (==_iff _ 1).1 (omega arith),
      (let low : (q * 2 ^ 12 + (3 + flags)) / 2 ^ 7 % 2 ≡ 0 = omega arith in rw low refl),
      omega arith,
    )

module _ (v : Vmm) (root table index flags l : ℕ) (s : Shape v root) (page : ℕ) (pmm : Pmm)
    (taken : Pmm.alloc v.pmm true ≡ (ok page, pmm)) (high : s.level table ≡ suc (suc l))
    (gone : is_present (v.tables table index) ≡ false) (few : flags ≤ 4)
    (even : flags % 2 ≡ 0) where
  abbrev grown : Vmm
  grown =
      set_entry (record v { pmm = pmm; tables = update v.tables page (λ i. 0) }) table index
        (table_entry page flags)

  unused : s.level page ≡ 0
  unused = s.fresh page (alloc_takes v.pmm true s.pages taken).0

  apart : table ≢ page
  apart e = let same : s.level table ≡ 0 = ap s.level e ∙ unused in absurd (omega arith)

  fields :
      (is_present (table_entry page flags) ≡ true)
      × (is_huge (table_entry page flags) ≡ false)
      × (address (table_entry page flags) ≡ page)
  fields =
      let (whole, small) = s.aligned page (alloc_takes v.pmm true s.pages taken).0 in
      table_entry_fields page flags whole small few even

  -- The page is empty, the one entry is new, and the others are as before.
  entry_new : grown.tables table index ≡ table_entry page flags
  entry_new = ground arith

  entry_empty : (i : ℕ) → grown.tables page i ≡ 0
  entry_empty i = ground (arith, apart)

  entry_old : (t i : ℕ) → t ≢ page → ((t ≡ table) × (i ≡ index)) ⊎ (grown.tables t i ≡ v.tables t i)
  entry_old t i ne = elim (Bool-cases (table == t)) [
    | inr other ↦ inr (ground arith)
    | inl same ↦ elim (Bool-cases (index == i)) [
      | inr other ↦ inr (ground arith)
      | inl here ↦ inl (ground arith)
    ]
  ]

  not_new : (p k : ℕ) → s.level p ≡ suc k → p ≢ page
  not_new p k at e = let low : s.level p ≡ 0 = ap s.level e ∙ unused in absurd (omega arith)

  -- An entry of the grown tables below the root is the new one, or was there.
  entry_cases :
      (t i next k : ℕ)
      → Leads grown t i next
      → update s.level page (suc l) t ≡ suc (suc k)
      → ((t ≡ table) × (i ≡ index) × (next ≡ page) × (k ≡ l))
        ⊎ (Leads v t i next × (s.level t ≡ suc (suc k)) × (next ≢ page))
  entry_cases t i next k leads at = elim (Bool-cases (page == t)) [
    | inl same ↦
        let here : page ≡ t = (==_iff page t).0 same in
        let zero : grown.tables t i ≡ 0 =
          ap (λ (p : ℕ). grown.tables p i) (sym here) ∙ entry_empty i in
        let clear : is_present (grown.tables t i) ≡ false = ap (λ (n : ℕ). is_present n) zero in
        absurd (cc (leads.present))
    | inr other ↦
        let ne : t ≢ page = λ e. (let hit : (page == t) ≡ true = (==_iff page t).1 (sym e) in cc) in
        let was : s.level t ≡ suc (suc k) =
          sym (update_ne s.level page t (suc l) (λ e. ne (sym e))) ∙ at in
        elim (entry_old t i ne) [
          | inl (same_table, same_index) ↦
              let e : grown.tables t i ≡ table_entry page flags =
                ap (λ (p : ℕ). grown.tables p i) same_table
                ∙ ap (grown.tables table) same_index
                ∙ entry_new in
              let high' : s.level t ≡ suc (suc l) = ap s.level same_table ∙ high in
              inl (
                same_table,
                same_index,
                sym (leads.target) ∙ ap (λ (n : ℕ). address n) e ∙ fields.2,
                omega arith,
              )
          | inr old ↦
              let kept : Leads v t i next = record {
                present = ap (λ (n : ℕ). is_present n) (sym old) ∙ leads.present;
                small = ap (λ (n : ℕ). is_huge n) (sym old) ∙ leads.small;
                target = ap (λ (n : ℕ). address n) (sym old) ∙ leads.target;
              } in
              inr (kept, was, not_new next k (s.below t i next k kept was))
        ]
  ]

  grown-Shape : Shape grown root
  grown-Shape = record {
    level = update s.level page (suc l);
    parent = update s.parent page table;
    place = update s.place page index;
    root_level =
        update_ne s.level page root (suc l) (λ e. not_new root 3 s.root_level (sym e))
        ∙ s.root_level;
    below = λ t i next k leads at. elim (entry_cases t i next k leads at) [
      | inl (a, b, c, d) ↦
          ap (update s.level page (suc l)) c ∙ update_self s.level page (suc l) ∙ ap suc (sym d)
      | inr (old, was, ne) ↦
          update_ne s.level page next (suc l) (λ e. ne (sym e)) ∙ s.below t i next k old was
    ];
    entered = λ t i next k leads at. elim (entry_cases t i next k leads at) [
      | inl (a, b, c, d) ↦ (
        ap (update s.parent page table) c ∙ update_self s.parent page table ∙ sym a,
        ap (update s.place page index) c ∙ update_self s.place page index ∙ sym b,
      )
      | inr (old, was, ne) ↦
          let (x, y) = s.entered t i next k old was in
          (
            update_ne s.parent page next table (λ e. ne (sym e)) ∙ x,
            update_ne s.place page next index (λ e. ne (sym e)) ∙ y,
          )
    ];
    pages = subst Pages.IsValid (ap (λ r. r.1) taken) (alloc-IsValid v.pmm true s.pages);
    fresh = λ other f.
        let takes = alloc_takes v.pmm true s.pages taken in
        update_ne s.level page other (suc l) (λ e. takes.1 (subst (IsFree pmm) (sym e) f))
        ∙ s.fresh other (takes.3 other f);
    aligned = λ other f. s.aligned other ((alloc_takes v.pmm true s.pages taken).3 other f);
  }

  grown-Extends : Extends v root s grown
  unfolding grown-Shape
  grown-Extends = record {
    shape = grown-Shape;
    keeps = λ p used. update_ne s.level page p (suc l) (λ e. used (ap s.level (sym e) ∙ unused));
    stays = λ p i used here. elim (entry_old p i (λ e. used (ap s.level e ∙ unused))) [
      | inr old ↦ old
      | inl (a, b) ↦
          let there : is_present (v.tables table index) ≡ true =
            ap (λ (q : ℕ). is_present (v.tables q index)) (sym a)
            ∙ ap (λ (j : ℕ). is_present (v.tables p j)) (sym b)
            ∙ here in
          absurd (cc)
    ];
    started = refl;
  }

  grown-Leads : Leads grown table index page
  grown-Leads = record {
    present = ap (λ (n : ℕ). is_present n) entry_new ∙ fields.0;
    small = ap (λ (n : ℕ). is_huge n) entry_new ∙ fields.1;
    target = ap (λ (n : ℕ). address n) entry_new ∙ fields.2;
  }

-- One step of the walk: the tree may have grown, and the entry leads to the next lower table.
pub record Stepped (v : Vmm) (root table index l : ℕ) (s : Shape v root) (next : ℕ) (v' : Vmm)
    : Type 0 where
  pub extends : Extends v root s v'
  pub leads : Leads v' table index next

pub next_table-Stepped :
    (v : Vmm) (root table index flags l : ℕ) (s : Shape v root) {next : ℕ} {v' : Vmm}
    → s.level table ≡ suc (suc l)
    → flags ≤ 4
    → flags % 2 ≡ 0
    → next_table v table index true flags ≡ (ok next, v')
    → Stepped v root table index l s next v'
unfolding next_table allocate_table
next_table-Stepped v root table index flags l s {next} {v'} high few even h =
    elim (Bool-cases (is_present (v.tables table index))) [
      | inl here ↦ elim (Bool-cases (is_huge (v.tables table index))) [
        | inl huge ↦ absurd (ground arith)
        | inr small ↦
            let same : v ≡ v' = ground arith in
            subst (Stepped v root table index l s next) same (record {
              extends = Extends-same v root s;
              leads = record { present = here; small = small; target = ground arith };
            })
      ]
      | inr gone ↦ elim (Result-cases (Pmm.alloc v.pmm true).0) [
        | inr (e, bad) ↦ absurd (ground arith)
        | inl (page, good) ↦
            let taken : Pmm.alloc v.pmm true ≡ (ok page, (Pmm.alloc v.pmm true).1) =
              ap (λ r. (r, (Pmm.alloc v.pmm true).1)) good in
            let pmm = (Pmm.alloc v.pmm true).1 in
            let (there, plain, at) =
              fields v root table index flags l s page pmm taken high gone few even in
            let same : grown v root table index flags l s page pmm taken high gone few even ≡ v' =
              ground arith in
            let target : page ≡ next = ground arith in
            subst (Stepped v root table index l s next) same (
              subst
                (λ n.
                  Stepped v root table index l s n
                    (grown v root table index flags l s page pmm taken high gone few even))
                target
                (record {
                  extends =
                      grown-Extends v root table index flags l s page pmm taken high gone few even;
                  leads =
                      grown-Leads v root table index flags l s page pmm taken high gone few even;
                }))
      ]
    ]

pub Extends-trans :
    (v : Vmm) (root : ℕ) (s : Shape v root) (v' v'' : Vmm) (e : Extends v root s v')
    → Extends v' root e.shape v''
    → Extends v root s v''
Extends-trans v root s v' v'' e f = record {
  shape = f.shape;
  keeps = λ p used. f.keeps p (still p used) ∙ e.keeps p used;
  stays = λ p i used here.
      let old = e.stays p i used here in
      f.stays p i (still p used) (ap (λ (n : ℕ). is_present n) old ∙ here) ∙ old;
  started = f.started ∙ e.started;
}
  where
    still : (p : ℕ) → s.level p ≢ 0 → e.shape.level p ≢ 0
    still p used z = used (sym (e.keeps p used) ∙ z)

-- An entry that leads to a table still does.
pub Leads-Extends :
    (v : Vmm) (root : ℕ) (s : Shape v root) (v' : Vmm) (table index next l : ℕ)
    → Extends v root s v'
    → s.level table ≡ suc l
    → Leads v table index next
    → Leads v' table index next
Leads-Extends v root s v' table index next l e at leads =
    let same = e.stays table index (λ z. absurd (omega arith)) leads.present in
    record {
      present = ap (λ (n : ℕ). is_present n) same ∙ leads.present;
      small = ap (λ (n : ℕ). is_huge n) same ∙ leads.small;
      target = ap (λ (n : ℕ). address n) same ∙ leads.target;
    }

pub Route-Extends :
    (v : Vmm) (root : ℕ) (s : Shape v root) (v' : Vmm) (virt leaf : ℕ)
    → Extends v root s v'
    → Route v root virt leaf
    → Route v' root virt leaf
Route-Extends v root s v' virt leaf e r =
    let (three, two, one) = leaf-level v root virt leaf s r in
    record {
      pdpt = r.pdpt;
      pd = r.pd;
      first = Leads-Extends v root s v' root (pml4_index virt) r.pdpt 3 e s.root_level r.first;
      second = Leads-Extends v root s v' r.pdpt (pdpt_index virt) r.pd 2 e three r.second;
      third = Leads-Extends v root s v' r.pd (pd_index virt) leaf 1 e two r.third;
    }

-- The walk that makes missing tables: the tree may have grown, and the address has a route.
pub record Walked (v : Vmm) (root virt : ℕ) (s : Shape v root) (leaf : ℕ) (v' : Vmm) : Type 0 where
  pub extends : Extends v root s v'
  pub route : Route v' root virt leaf

pub leaf_table-Walked :
    (v : Vmm) (root virt flags : ℕ) (s : Shape v root) {leaf : ℕ} {v' : Vmm}
    → flags ≤ 4
    → flags % 2 ≡ 0
    → leaf_table v root virt true flags ≡ (ok leaf, v')
    → Walked v root virt s leaf v'
unfolding leaf_table
leaf_table-Walked v root virt flags s {leaf} {v'} few even h =
    let (pdpt, v1, made1, h1) =
      chained_split (next_table v root (pml4_index virt) true flags) _ h in
    let (pd, v2, made2, h2) =
      chained_split (next_table v1 pdpt (pdpt_index virt) true flags) _ h1 in
    let a =
      next_table-Stepped v root root (pml4_index virt) flags 2 s s.root_level few even made1 in
    let s1 = a.extends.shape in
    let l1 = s1.below root (pml4_index virt) pdpt 2 a.leads s1.root_level in
    let b = next_table-Stepped v1 root pdpt (pdpt_index virt) flags 1 s1 l1 few even made2 in
    let s2 = b.extends.shape in
    let l1' : s2.level pdpt ≡ 3 = b.extends.keeps pdpt (λ z. absurd (omega arith)) ∙ l1 in
    let l2 = s2.below pdpt (pdpt_index virt) pd 1 b.leads l1' in
    let c = next_table-Stepped v2 root pd (pd_index virt) flags 0 s2 l2 few even h2 in
    let first =
      Leads-Extends v1 root s1 v2 root (pml4_index virt) pdpt 3 b.extends s1.root_level a.leads in
    record {
      extends =
          Extends-trans v root s v1 v' a.extends
            (Extends-trans v1 root s1 v2 v' b.extends c.extends);
      route = record {
        pdpt = pdpt;
        pd = pd;
        first =
            Leads-Extends v2 root s2 v' root (pml4_index virt) pdpt 3 c.extends s2.root_level first;
        second = Leads-Extends v2 root s2 v' pdpt (pdpt_index virt) pd 2 c.extends l1' b.leads;
        third = c.leads;
      };
    }
