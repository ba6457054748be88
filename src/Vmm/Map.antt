-- ===== src/Vmm/Map.antt =====
-- What mapping and unmapping a page do to the translations of it and of every other page.
use scdk.Base.{
  ℕ, suc, ◌+◌, ◌*◌, ◌/◌, ◌%◌, ◌^◌, ◌≡◌, ◌≢◌, sym, ap, ◌∙◌, subst, inl, inr, true, false, arith,
  Bool-cases, ◌==◌, ==_iff, update_ne,
}
use scdk.Status.{ok, Result-cases, chained, chained_split}
use scdk.Vmm.{
  Vmm, bit, is_present, is_huge, address, pml4_index, pdpt_index, pd_index, pt_index, set_entry,
  leaf_table, check_map, page_entry, entry_flags, validate_root, validate_address, map_page,
  translate, finish_map,
}
use scdk.Vmm.Tree.{Leads, Shape, Route, leaf-level, leaf_unique, Route-leaf_table, leaf_table-Route}
use scdk.Vmm.Walk.{Walked, leaf_table-Walked}

-- The page of an address, as the four indices see it: bits 12 to 47.
abbrev pub page_number : ℕ → ℕ
page_number virt = virt / 4096 % 2 ^ 36

-- Two addresses with the same indices have the same page.
page_number_split :
    (a b : ℕ)
    → pml4_index a ≡ pml4_index b
    → pdpt_index a ≡ pdpt_index b
    → pd_index a ≡ pd_index b
    → pt_index a ≡ pt_index b
    → page_number a ≡ page_number b
page_number_split a b p q r s = omega arith

pub page_number_indices :
    (a b : ℕ)
    → page_number a ≡ page_number b
    → (pml4_index a ≡ pml4_index b)
      × (pdpt_index a ≡ pdpt_index b)
      × (pd_index a ≡ pd_index b)
      × (pt_index a ≡ pt_index b)
page_number_indices a b e = omega arith

-- A route serves every address of the page.
pub Route-page :
    (v : Vmm) (root a b leaf : ℕ)
    → page_number a ≡ page_number b
    → Route v root a leaf
    → Route v root b leaf
Route-page v root a b leaf e r =
    let (p, q, s, t) = page_number_indices a b e in
    record {
      pdpt = r.pdpt;
      pd = r.pd;
      first = subst (λ i. Leads v root i r.pdpt) p r.first;
      second = subst (λ i. Leads v r.pdpt i r.pd) q r.second;
      third = subst (λ i. Leads v r.pd i leaf) s r.third;
    }

-- Writing an entry of a leaf table.
module _ (v : Vmm) (root virt leaf entry : ℕ) (s : Shape v root) (r : Route v root virt leaf) where
  abbrev pub written : Vmm
  written = set_entry v leaf (pt_index virt) entry

  -- The tables above the leaves are as before.
  kept_above :
      (table i l : ℕ) → s.level table ≡ suc (suc l) → written.tables table i ≡ v.tables table i
  kept_above table i l at =
      let (three, two, one) = leaf-level v root virt leaf s r in
      let ne : leaf ≢ table =
        λ e. (let low : s.level table ≡ 1 = ap s.level (sym e) ∙ one in absurd (omega arith)) in
      ap (λ (t : ℕ → ℕ). t i) (update_ne v.tables leaf table _ ne)

  moved-Leads :
      (w w' : Vmm) (table i next : ℕ)
      → w'.tables table i ≡ w.tables table i
      → Leads w table i next
      → Leads w' table i next
  moved-Leads w w' table i next same l = record {
    present = ap (λ (n : ℕ). is_present n) same ∙ l.present;
    small = ap (λ (n : ℕ). is_huge n) same ∙ l.small;
    target = ap (λ (n : ℕ). address n) same ∙ l.target;
  }

  pub written-Shape : Shape written root
  written-Shape = record {
    level = s.level;
    parent = s.parent;
    place = s.place;
    root_level = s.root_level;
    below = λ table i next l leads at.
        s.below table i next l
          (moved-Leads written v table i next (sym (kept_above table i l at)) leads) at;
    entered = λ table i next l leads at.
        s.entered table i next l
          (moved-Leads written v table i next (sym (kept_above table i l at)) leads) at;
    pages = s.pages;
    fresh = s.fresh;
    aligned = s.aligned;
  }

  pub written-Route : (b end : ℕ) → Route v root b end → Route written root b end
  written-Route b end q =
      let (three, two, one) = leaf-level v root b end s q in
      record {
        pdpt = q.pdpt;
        pd = q.pd;
        first =
            moved-Leads v written root (pml4_index b) q.pdpt
              (kept_above root (pml4_index b) 2 s.root_level) q.first;
        second =
            moved-Leads v written q.pdpt (pdpt_index b) q.pd
              (kept_above q.pdpt (pdpt_index b) 1 three) q.second;
        third =
            moved-Leads v written q.pd (pd_index b) end (kept_above q.pd (pd_index b) 0 two)
              q.third;
      }

  pub written_here : written.tables leaf (pt_index virt) ≡ entry
  written_here = ground arith

  -- The entry of every other page is as before.
  pub written_other :
      (b end : ℕ)
      → Route v root b end
      → page_number b ≢ page_number virt
      → written.tables end (pt_index b) ≡ v.tables end (pt_index b)
  written_other b end q ne = elim (Bool-cases (leaf == end)) [
    | inr other ↦ ground arith
    | inl same ↦ elim (Bool-cases (pt_index virt == pt_index b)) [
      | inr other ↦
          let one_leaf : leaf ≡ end = (==_iff leaf end).0 same in
          subst (λ (t : ℕ). written.tables t (pt_index b) ≡ v.tables t (pt_index b)) one_leaf
            (ground arith)
      | inl here ↦
          let one_leaf : leaf ≡ end = (==_iff leaf end).0 same in
          let (x, y, z) =
            leaf_unique v root b virt leaf s (subst (Route v root b) (sym one_leaf) q) r in
          absurd (
            ne
              (page_number_split b virt x y z (sym ((==_iff (pt_index virt) (pt_index b)).0 here))))
    ]
  ]

-- What a translation reports of an address whose page's entry is `entry`.
abbrev pub report : ℕ → ℕ → ℕ × ℕ
report entry virt = (address entry + virt % 4096, entry_flags entry)

-- A successful translation: the address passes the tests, and its route leads to a present entry.
pub record Translated (v : Vmm) (root virt : ℕ) (found : ℕ × ℕ) : Type 0 where
  pub leaf : ℕ
  pub good_root : validate_root v root ≡ ok tt
  pub good_address : validate_address v (virt / 4096 * 4096) ≡ ok tt
  pub route : Route v root virt leaf
  pub present : is_present (v.tables leaf (pt_index virt)) ≡ true
  pub reported : report (v.tables leaf (pt_index virt)) virt ≡ found

pub translate-Translated :
    (v : Vmm) (root virt : ℕ) {found : ℕ × ℕ}
    → translate v root virt true ≡ ok found
    → Translated v root virt found
unfolding translate
translate-Translated v root virt {found} h = elim (Result-cases (validate_root v root)) [
  | inr (e, bad) ↦ absurd (ground arith)
  | inl (a, good_root) ↦ elim (Result-cases (validate_address v (virt / 4096 * 4096))) [
    | inr (e, bad) ↦ absurd (ground arith)
    | inl (b, good_address) ↦ elim (Result-cases (leaf_table v root virt false 0).0) [
      | inr (e, bad) ↦ absurd (ground arith)
      | inl (leaf, walked) ↦ elim (Bool-cases (is_present (v.tables leaf (pt_index virt)))) [
        | inr gone ↦ absurd (ground arith)
        | inl here ↦ record {
          leaf = leaf;
          good_root = good_root;
          good_address = good_address;
          route = leaf_table-Route v root virt 0 walked;
          present = here;
          reported = ground arith;
        }
      ]
    ]
  ]
]

pub Translated-translate :
    (v : Vmm) (root virt : ℕ) {found : ℕ × ℕ}
    → Translated v root virt found
    → translate v root virt true ≡ ok found
unfolding translate
Translated-translate v root virt t =
    let walked : (leaf_table v root virt false 0).0 ≡ ok t.leaf =
      ap (λ r. r.0) (Route-leaf_table v root virt t.leaf 0 false t.route) in
    rw (t.good_root) (rw (t.good_address) (rw walked (rw (t.present) (ap (λ r. ok r) t.reported))))

-- A successful mapping: the walk, and the entry written where none was.
pub record Mapped (v : Vmm) (root virt phys flags : ℕ) (s : Shape v root) (v' : Vmm) : Type 0 where
  pub leaf : ℕ
  pub middle : Vmm
  pub good : check_map v root virt phys flags ≡ ok tt
  pub walked : Walked v root virt s leaf middle
  pub gone : is_present (middle.tables leaf (pt_index virt)) ≡ false
  pub after : set_entry middle leaf (pt_index virt) (page_entry phys flags) ≡ v'

pub map_page-Mapped :
    (v : Vmm) (root virt phys flags : ℕ) (s : Shape v root) {v' : Vmm}
    → map_page v root virt phys flags ≡ (ok tt, v')
    → Mapped v root virt phys flags s v'
unfolding map_page finish_map
map_page-Mapped v root virt phys flags s {v'} h =
    elim (Result-cases (check_map v root virt phys flags)) [
      | inr (e, bad) ↦ absurd (ground arith)
      | inl (a, good) ↦
          let step : chained (leaf_table v root virt true (4 * bit 1 flags))
                (finish_map virt phys flags)
              ≡ (ok tt, v') =
            ground arith in
          let (leaf, middle, made, rest) =
            chained_split (leaf_table v root virt true (4 * bit 1 flags))
              (finish_map virt phys flags) step in
          elim (Bool-cases (is_present (middle.tables leaf (pt_index virt)))) [
            | inl here ↦ absurd (ground arith)
            | inr gone ↦ record {
              leaf = leaf;
              middle = middle;
              good = good;
              walked =
                  leaf_table-Walked v root virt (4 * bit 1 flags) s (omega arith) (omega arith)
                    made;
              gone = gone;
              after = ground arith;
            }
          ]
    ]
