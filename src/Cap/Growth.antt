-- ===== src/Cap/Growth.antt =====
-- How the creators of the other subsystems change the capability space: they make an object, then a
-- token for it, and revoke nothing.
use scdk.Base.{ℕ, ◌≡◌, ◌≢◌, refl, sym, ◌∙◌, subst, Bool, true, arith, ap}
use scdk.Status.{Error, Result, ok, err}
use scdk.Object
use scdk.Object.{Object, Pointer}
use scdk.Object.Laws
use scdk.Object.Words.{id_generation}
use scdk.Cap.{
  CapEntry, CapSpace, lookup, check, has_rights, create, create_object, fill, minted, made,
  new_object,
}
use scdk.Cap.Laws.{IsValid, check-lookup}
use scdk.Cap.Preserve.{create-IsValid, create_object-IsValid, create-cases}
use scdk.Cap.Rights.{describe, lookup-create}
use scdk.Cap.Stale.{lookup-create_old, lookup-create_object_old}

-- The spaces that creations alone can reach.
pub data Grows (s : CapSpace) : CapSpace → Type 0 where
  same : Grows s s
  object :
      {t : CapSpace}
      → Grows s t
      → (type core flags : ℕ) (p : Pointer) → Grows s (create_object t type core flags p).1
  token : {t : CapSpace} → Grows s t → (id rights : ℕ) → Grows s (create t id rights true).1

pub Grows-IsValid : {s t : CapSpace} → Grows s t → IsValid s → IsValid t
Grows-IsValid same v = v
Grows-IsValid (object g type core flags p) v =
    create_object-IsValid _ type core flags p (Grows-IsValid g v)
Grows-IsValid (token g id rights) v = create-IsValid _ id rights true (Grows-IsValid g v)

-- No working token is lost.
pub Grows-lookup :
    {s t : CapSpace} (cap : ℕ) {e : CapEntry}
    → Grows s t
    → lookup s cap ≡ ok e
    → lookup t cap ≡ ok e
Grows-lookup cap same h = h
Grows-lookup cap (object g type core flags p) h =
    lookup-create_object_old _ type core flags p cap (Grows-lookup cap g h)
Grows-lookup cap (token g id rights) h =
    lookup-create_old _ id rights true cap (Grows-lookup cap g h)

-- Nor does a check that passed fail.
pub Grows-check :
    {s t : CapSpace} (cap required expected : ℕ) {e : CapEntry}
    → Grows s t
    → check s cap required expected ≡ ok e
    → check t cap required expected ≡ ok e
unfolding check
Grows-check {s} {t} cap required expected {e} g h =
    let kept = Grows-lookup cap g (check-lookup s cap required expected h) in
    let before = check-lookup s cap required expected h in ground arith

pub objects-create :
    (s : CapSpace) (id rights : ℕ) (out : Bool) → (create s id rights out).1.objects ≡ s.objects
unfolding fill
objects-create s id rights out =
    create-cases (λ t. t.objects ≡ s.objects) s id rights out refl (λ i o lt free found. refl)

-- Every object stays.
pub Grows-object :
    {s t : CapSpace} (id : ℕ) {o : Object}
    → Grows s t
    → Object.lookup s.objects id true ≡ ok o
    → Object.lookup t.objects id true ≡ ok o
unfolding create_object
Grows-object id same h = h
Grows-object {s} id (object {t = t} g type core flags p) h =
    Laws.lookup-create_old t.objects type core flags p true id (Grows-object id g h)
Grows-object id {o} (token {t = t} g i rights) h =
    subst (λ x. Object.lookup x id true ≡ ok o) (sym (objects-create t i rights true))
      (Grows-object id g h)

-- A new object with its first token.
pub record Minted (type core : ℕ) (p : Pointer) (rights id cap : ℕ) (s : CapSpace) : Type 0 where
  pub object : Object
  pub found : Object.lookup s.objects id true ≡ ok object
  pub named : object.id ≡ id
  pub typed : object.type ≡ type
  pub payload : object.payload ≡ p
  pub entry : lookup s cap ≡ ok (describe object rights)

pub mint-Minted :
    (s : CapSpace) (type core flags : ℕ) (p : Pointer) (rights : ℕ) {id cap : ℕ} {s' s'' : CapSpace}
    → create_object s type core flags p ≡ (ok id, s')
    → create s' id rights true ≡ (ok cap, s'')
    → Minted type core p rights id cap s''
unfolding create_object
mint-Minted s type core flags p rights {id} {cap} {s'} {s''} made minted =
    let made' : Object.create s.objects type core flags p true ≡ (ok id, s'.objects) =
      ground arith in
    let there = Laws.lookup-create s.objects type core flags p true made' in
    let kept : s''.objects ≡ s'.objects =
      ap (λ r. r.1.objects) (sym minted) ∙ objects-create s' id rights true in
    let o : Object = record {
      id = id;
      type = type;
      generation = id_generation id;
      owner_core = core;
      flags = flags;
      payload = p;
    } in
    record {
      object = o;
      found = rw kept there;
      named = refl;
      typed = refl;
      payload = refl;
      entry = lookup-create s' id rights true o there minted;
    }

grown :
    (s : CapSpace) (type core : ℕ) (p : Pointer) (rights id : ℕ) {r c : Result ℕ} {t t' : CapSpace}
    → create_object s type core 0 p ≡ (r, t)
    → create t id rights true ≡ (c, t')
    → Grows s t'
grown s type core p rights id {t = t} made minted =
    subst (Grows s) (ap (λ r. r.1) minted)
      (token (subst (Grows s) (ap (λ r. r.1) made) (object same type core 0 p)) id rights)

-- The shared steps of the creators end in one of three ways.
module _ {S : Type 0} (failed : CapSpace → S) (filled cleared : ℕ → CapSpace → S) (s : CapSpace)
    (type core : ℕ) (p : Pointer) (rights : ℕ) where
  pub new_object-cases {ℓ} :
      (P : Result ℕ × S → Type ℓ)
      → ((e : Error) (t : CapSpace) → Grows s t → P (err e, failed t))
      → ((id cap : ℕ) (t : CapSpace)
          → Grows s t
          → Minted type core p rights id cap t
          → P (ok cap, filled id t))
      → ((e : Error) (id : ℕ) (t : CapSpace) → Grows s t → P (err e, cleared id t))
      → P (new_object failed filled cleared s type core p rights)
  unfolding new_object
  new_object-cases P bad good undone = go (create_object s type core 0 p) refl
    where
      mints :
          (id : ℕ) (t : CapSpace)
          → create_object s type core 0 p ≡ (ok id, t)
          → (r : Result ℕ × CapSpace) → create t id rights true ≡ r
          → P (minted failed filled cleared id r)
      mints id t made (ok cap, t') e =
          good id cap t' (grown s type core p rights id made e)
            (mint-Minted s type core 0 p rights made e)
      mints id t made (err x, t') e = undone x id t' (grown s type core p rights id made e)

      go :
          (r : Result ℕ × CapSpace)
          → create_object s type core 0 p ≡ r
          → P (made failed filled cleared rights r)
      go (ok id, t) e = mints id t e (create t id rights true) refl
      go (err x, t) e = bad x t (subst (Grows s) (ap (λ r. r.1) e) (object same type core 0 p))

-- The new token passes each check for some of its rights and the object's type.
pub check-Minted :
    {type core : ℕ} {p : Pointer} {rights id cap : ℕ} {s : CapSpace} (required : ℕ)
    (m : Minted type core p rights id cap s)
    → required ≢ 0
    → has_rights rights required ≡ true
    → check s cap required type ≡ ok (describe m.object rights)
unfolding check
check-Minted {type} required m pos within = let e = m.entry in let t = m.typed in ground arith

-- Its entry leads to the object.
pub object-Minted :
    {type core : ℕ} {p : Pointer} {rights id cap : ℕ} {s : CapSpace}
    (m : Minted type core p rights id cap s)
    → Object.lookup s.objects (describe m.object rights).object_id true ≡ ok m.object
object-Minted {s = s} m =
    subst (λ x. Object.lookup s.objects x true ≡ ok m.object) (sym m.named) m.found
