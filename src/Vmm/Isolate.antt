-- ===== src/Vmm/Isolate.antt =====
-- Mapping and unmapping act on one page: it translates as asked, and every other page as before.
use scdk.Base.{
  ℕ, ◌+◌, ◌-◌, ◌*◌, ◌/◌, ◌%◌, ◌^◌, ◌<◌, ◌≡◌, ◌≢◌, refl, sym, ap, ◌∙◌, subst, inl, inr, true, false,
  arith, ==_iff, if◌then◌else◌, Bool-cases,
}
use scdk.Status.{ok, err, inval, noent, Result-cases}
use scdk.Vmm.{
  Vmm, bit, is_present, address, pt_index, set_entry, leaf_table, check_map, page_entry,
  entry_flags, validate_root, validate_address, is_canonical, map_page, unmap_page, translate,
  finish_unmap,
}
use scdk.Vmm.Tree.{Shape, Route, leaf-level, leaf_table-Route, Route-leaf_table}
use scdk.Vmm.Walk.{Extends, Route-Extends}
use scdk.Vmm.Map.{
  page_number, page_number_indices, Route-page, written-Shape, written-Route, written_here,
  written_other, report, Translated, translate-Translated, Translated-translate, map_page-Mapped,
}

-- What the tests of a mapping request say.
check_map-eq-ok :
    (v : Vmm) (root virt phys flags : ℕ)
    → check_map v root virt phys flags ≡ ok tt
    → (validate_root v root ≡ ok tt)
      × (v.initialized ≡ true)
      × (virt % 4096 ≡ 0)
      × (phys % 4096 ≡ 0)
      × (flags < 4)
unfolding check_map validate_root validate_address
check_map-eq-ok v root virt phys flags h = ground arith

-- The tests look at the initialisation alone.
root_same :
    (v w : Vmm) (root : ℕ)
    → w.initialized ≡ v.initialized
    → validate_root w root ≡ validate_root v root
unfolding validate_root
root_same v w root e = rw e refl

address_same :
    (v w : Vmm) (b : ℕ)
    → w.initialized ≡ v.initialized
    → validate_address w b ≡ validate_address v b
unfolding validate_address
address_same v w b e = rw e refl

address_passes :
    (v : Vmm) (b : ℕ)
    → v.initialized ≡ true
    → is_canonical b ≡ true
    → validate_address v (b / 4096 * 4096) ≡ ok tt
unfolding validate_address
address_passes v b on canonical =
    let top : b / 4096 * 4096 / 2 ^ 48 ≡ b / 2 ^ 48 = omega arith in
    let aligned : b / 4096 * 4096 % 4096 ≡ 0 = omega arith in rw (on, aligned, top, canonical) refl

page_entry_fields :
    (phys flags : ℕ)
    → phys % 4096 ≡ 0
    → phys < 2 ^ 52
    → flags < 4
    → (bit 0 (page_entry phys flags) ≡ 1)
      × (address (page_entry phys flags) ≡ phys)
      × (entry_flags (page_entry phys flags) ≡ flags)
page_entry_fields phys flags whole small few = (omega arith, omega arith, omega arith)

-- Writing a leaf entry leaves the translations of other pages.
Translated-written :
    (v : Vmm) (root virt leaf entry b : ℕ) (s : Shape v root) {found : ℕ × ℕ}
    → Route v root virt leaf
    → page_number b ≢ page_number virt
    → Translated v root b found
    → Translated (set_entry v leaf (pt_index virt) entry) root b found
unfolding validate_root validate_address
Translated-written v root virt leaf entry b s r ne t =
    let same = written_other v root virt leaf entry s r b t.leaf t.route ne in
    record {
      leaf = t.leaf;
      good_root = t.good_root;
      good_address = t.good_address;
      route = written-Route v root virt leaf entry s r b t.leaf t.route;
      present = ap (λ (n : ℕ). is_present n) same ∙ t.present;
      reported = ap (λ (n : ℕ). report n b) same ∙ t.reported;
    }

-- A grown tree translates as before.
Translated-Extends :
    (v v' : Vmm) (root b : ℕ) (s : Shape v root) {found : ℕ × ℕ}
    → Extends v root s v'
    → Translated v root b found
    → Translated v' root b found
Translated-Extends v v' root b s e t =
    let (three, two, one) = leaf-level v root b t.leaf s t.route in
    let same = e.stays t.leaf (pt_index b) (λ z. absurd (omega arith)) t.present in
    record {
      leaf = t.leaf;
      good_root = root_same v v' root e.started ∙ t.good_root;
      good_address = address_same v v' (b / 4096 * 4096) e.started ∙ t.good_address;
      route = Route-Extends v root s v' b t.leaf e t.route;
      present = ap (λ (n : ℕ). is_present n) same ∙ t.present;
      reported = ap (λ (n : ℕ). report n b) same ∙ t.reported;
    }

-- In a tree of page tables, every canonical address of a page just mapped translates to the frame
-- asked for, below 2 ^ 52, at its offset, with the flags asked for.
pub translate-map_page :
    (v : Vmm) (root virt phys flags b : ℕ) (s : Shape v root) {v' : Vmm}
    → phys < 2 ^ 52
    → map_page v root virt phys flags ≡ (ok tt, v')
    → page_number b ≡ page_number virt
    → is_canonical b ≡ true
    → translate v' root b true ≡ ok (phys + b % 4096, flags)
translate-map_page v root virt phys flags b s {v'} small h same canonical =
    let m = map_page-Mapped v root virt phys flags s h in
    let (good_root, on, _, whole, few) = check_map-eq-ok v root virt phys flags m.good in
    let e = m.walked.extends in
    let entry = page_entry phys flags in
    let w = set_entry m.middle m.leaf (pt_index virt) entry in
    let (present, target, flagged) = page_entry_fields phys flags whole small few in
    let here : w.tables m.leaf (pt_index b) ≡ entry =
      ap (w.tables m.leaf) ((page_number_indices b virt same).3)
      ∙ written_here m.middle root virt m.leaf entry e.shape m.walked.route in
    subst (λ (x : Vmm). translate x root b true ≡ ok (phys + b % 4096, flags)) m.after
      (Translated-translate w root b (record {
        leaf = m.leaf;
        good_root = root_same v w root e.started ∙ good_root;
        good_address = address_passes w b (e.started ∙ on) canonical;
        route =
            written-Route m.middle root virt m.leaf entry e.shape m.walked.route b m.leaf
              (Route-page m.middle root virt b m.leaf (sym same) m.walked.route);
        present = ap (λ (n : ℕ). is_present n) here ∙ (==_iff _ 1).1 present;
        reported = ap (λ (n : ℕ). report n b) here ∙ rw (target, flagged) refl;
      }))

-- In a tree of page tables, an address of another page than the one just mapped, which translated
-- before, translates to the same place.
pub translate-map_page_other :
    (v : Vmm) (root virt phys flags b : ℕ) (s : Shape v root) {v' : Vmm} {found : ℕ × ℕ}
    → map_page v root virt phys flags ≡ (ok tt, v')
    → page_number b ≢ page_number virt
    → translate v root b true ≡ ok found
    → translate v' root b true ≡ ok found
translate-map_page_other v root virt phys flags b s {v'} {found} h ne there =
    let m = map_page-Mapped v root virt phys flags s h in
    let e = m.walked.extends in
    let t = Translated-Extends v m.middle root b s e (translate-Translated v root b there) in
    subst (λ (x : Vmm). translate x root b true ≡ ok found) m.after
      (Translated-translate _ root b (
        Translated-written m.middle root virt m.leaf (page_entry phys flags) b e.shape
          m.walked.route ne t))

-- A successful mapping keeps the tables under a root a tree.
pub map_page-Shape :
    (v : Vmm) (root virt phys flags : ℕ) (s : Shape v root) {v' : Vmm}
    → map_page v root virt phys flags ≡ (ok tt, v')
    → Shape v' root
map_page-Shape v root virt phys flags s h =
    let m = map_page-Mapped v root virt phys flags s h in
    subst (λ (x : Vmm). Shape x root) m.after
      (written-Shape m.middle root virt m.leaf (page_entry phys flags) m.walked.extends.shape
        m.walked.route)

-- A successful unmapping: the route, and the entry cleared.
record Unmapped (v : Vmm) (root virt : ℕ) (v' : Vmm) : Type 0 where
  leaf : ℕ
  good_root : validate_root v root ≡ ok tt
  good_address : validate_address v virt ≡ ok tt
  route : Route v root virt leaf
  after : set_entry v leaf (pt_index virt) 0 ≡ v'

unmap_page-Unmapped :
    (v : Vmm) (root virt : ℕ) {v' : Vmm}
    → unmap_page v root virt ≡ (ok tt, v')
    → Unmapped v root virt v'
unfolding unmap_page finish_unmap
unmap_page-Unmapped v root virt {v'} h = elim (Result-cases (validate_root v root)) [
  | inr (e, bad) ↦ absurd (ground arith)
  | inl (a, good_root) ↦ elim (Result-cases (validate_address v virt)) [
    | inr (e, bad) ↦ absurd (ground arith)
    | inl (b, good_address) ↦ elim (Result-cases (leaf_table v root virt false 0).0) [
      | inr (e, bad) ↦ absurd (ground arith)
      | inl (leaf, found) ↦
          let route = leaf_table-Route v root virt 0 found in
          let walked : leaf_table v root virt false 0 ≡ (ok leaf, v) =
            Route-leaf_table v root virt leaf 0 false route in
          record {
            leaf = leaf;
            good_root = good_root;
            good_address = good_address;
            route = route;
            after = ground arith;
          }
    ]
  ]
]

translate-gone :
    (v : Vmm) (root b leaf : ℕ)
    → validate_root v root ≡ ok tt
    → validate_address v (b / 4096 * 4096) ≡ ok tt
    → Route v root b leaf
    → is_present (v.tables leaf (pt_index b)) ≡ false
    → translate v root b true ≡ err noent
unfolding translate
translate-gone v root b leaf good_root good_address route gone =
    let walked : (leaf_table v root b false 0).0 ≡ ok leaf =
      ap (λ r. r.0) (Route-leaf_table v root b leaf 0 false route) in
    rw good_root (rw good_address (rw walked (rw gone refl)))

address_started : (v : Vmm) (virt : ℕ) → validate_address v virt ≡ ok tt → v.initialized ≡ true
unfolding validate_address
address_started v virt h = ground arith

translate-invalid :
    (v : Vmm) (root b : ℕ)
    → validate_root v root ≡ ok tt
    → v.initialized ≡ true
    → is_canonical b ≡ false
    → translate v root b true ≡ err inval
unfolding translate validate_address
translate-invalid v root b good_root on outside =
    let top : b / 4096 * 4096 / 2 ^ 48 ≡ b / 2 ^ 48 = omega arith in
    let aligned : b / 4096 * 4096 % 4096 ≡ 0 = omega arith in
    rw good_root (rw (on, aligned, top, outside) refl)

-- An address with the page number of the entry just cleared translates no more.
translate-cleared :
    (v : Vmm) (root virt b : ℕ) (s : Shape v root) {v' : Vmm} (m : Unmapped v root virt v')
    → page_number b ≡ page_number virt
    → translate (set_entry v m.leaf (pt_index virt) 0) root b true
      ≡ err (if is_canonical b then noent else inval)
translate-cleared v root virt b s m same =
    let w = set_entry v m.leaf (pt_index virt) 0 in
    let here : w.tables m.leaf (pt_index b) ≡ 0 =
      ap (w.tables m.leaf) ((page_number_indices b virt same).3)
      ∙ written_here v root virt m.leaf 0 s m.route in
    let good_root = root_same v w root refl ∙ m.good_root in
    let on = address_started v virt m.good_address in
    elim (Bool-cases (is_canonical b)) [
      | inr outside ↦ rw outside (translate-invalid w root b good_root on outside)
      | inl canonical ↦ rw canonical (
          translate-gone w root b m.leaf good_root (address_passes w b on canonical)
            (written-Route v root virt m.leaf 0 s m.route b m.leaf
              (Route-page v root virt b m.leaf (sym same) m.route))
            (ap (λ (n : ℕ). is_present n) here))
    ]

-- In a tree of page tables, once a page is unmapped no address translates whose bits 12 to 47, its
-- page number, are the page's: SCDK_ERR_NOENT is returned if it is canonical, and SCDK_ERR_INVAL if
-- not. So the addresses that differ from the page's in their top 16 bits alone go with it. An address
-- with another page number that translated still does, to the same place.
pub translate-unmap_page :
    (v : Vmm) (root virt b : ℕ) (s : Shape v root) {v' : Vmm}
    → unmap_page v root virt ≡ (ok tt, v')
    → (page_number b ≡ page_number virt
        → translate v' root b true ≡ err (if is_canonical b then noent else inval))
      × ((found : ℕ × ℕ)
          → page_number b ≢ page_number virt
          → translate v root b true ≡ ok found
          → translate v' root b true ≡ ok found)
translate-unmap_page v root virt b s {v'} h =
    let m = unmap_page-Unmapped v root virt h in
    subst
      (λ (x : Vmm).
        (page_number b ≡ page_number virt
          → translate x root b true ≡ err (if is_canonical b then noent else inval))
        × ((found : ℕ × ℕ)
            → page_number b ≢ page_number virt
            → translate v root b true ≡ ok found
            → translate x root b true ≡ ok found))
      m.after
      (
        λ same. translate-cleared v root virt b s m same,
        λ found ne there. Translated-translate _ root b (
            Translated-written v root virt m.leaf 0 b s m.route ne
              (translate-Translated v root b there)),
      )

-- In a tree of page tables, a page mapped at an address below 2 ^ 48 whose bit 47 is set is also
-- found at the kernel address that differs from it in its top 16 bits.
pub map_page_aliases :
    (v : Vmm) (root n phys flags : ℕ) (s : Shape v root) {v' : Vmm}
    → n < 2 ^ 47
    → phys < 2 ^ 52
    → map_page v root (2 ^ 47 + n) phys flags ≡ (ok tt, v')
    → translate v' root (2 ^ 64 - 2 ^ 47 + n) true ≡ ok (phys + n % 4096, flags)
map_page_aliases v root n phys flags s {v'} lt small h =
    let offset : (2 ^ 64 - 2 ^ 47 + n) % 4096 ≡ n % 4096 = omega arith in
    let top : (2 ^ 64 - 2 ^ 47 + n) / 2 ^ 48 ≡ 0xffff = omega arith in
    let good : is_canonical (2 ^ 64 - 2 ^ 47 + n) ≡ true = rw top refl in
    subst (λ (o : ℕ). translate v' root (2 ^ 64 - 2 ^ 47 + n) true ≡ ok (phys + o, flags)) offset
      (translate-map_page v root (2 ^ 47 + n) phys flags (2 ^ 64 - 2 ^ 47 + n) s small h
        (omega arith) good)
