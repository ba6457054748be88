-- ===== src/UserGrant/Create.antt =====
-- What creating a user grant gives: access to exactly the range and the rights asked for.
use scdk.Base.{
  ℕ, ◌<◌, ◌≡◌, ◌≢◌, refl, sym, ◌∙◌, ap, subst, inl, inr, Bool, true, false, not, arith, ◌==◌,
  bit_or, bit_and_assoc, bit_and-bit_or_left, Option-cases, Bool-cases, update, find_slot,
  find_slot-eq-some,
}
use scdk.Status.{Result, ok, err, Result-cases}
use scdk.Object
use scdk.Object.{Object, element, user_grants, obj_grant, obj_task, obj_endpoint, boot_core}
use scdk.Cap
use scdk.Cap.{CapEntry, CapSpace, has_rights, right_read, right_send, right_revoke}
use scdk.Cap.Laws.{IsValid}
use scdk.Cap.Laws
use scdk.Cap.Rights.{describe, lookup-create}
use scdk.Cap.Growth.{Grows, same, object, token, mint-Minted, objects-create}
use scdk.Kernel.{Kernel, UserGrantSlot, max_user_grants}
use scdk.UserSpace.{UserSpace}
use scdk.UserGrant.{in_use, slot_object, fill_slot, finish, new_slot, check_request, create}

-- The object of a used slot leads back to the slot.
pub record Backed (k : Kernel) (i : ℕ) : Type 0 where
  pub object : Object
  pub found : Object.lookup k.space.objects (k.user_grants i).object_id true ≡ ok object
  pub payload : object.payload ≡ element user_grants i
  pub typed : object.type ≡ obj_grant

abbrev pub IsBacked : Kernel → Type 0
IsBacked k = (i : ℕ) → (k.user_grants i).object_id ≢ 0 → Backed k i

-- Rights joined with others still hold each part of their own.
pub has_rights-bit_or :
    (rights more required : ℕ)
    → has_rights rights required ≡ true
    → has_rights (bit_or rights more) required ≡ true
has_rights-bit_or rights more required h =
    ground
      (arith, bit_and_assoc (bit_or rights more) rights required, bit_and-bit_or_left rights more)

-- The object of a slot and its token.
pub record Behind (s : CapSpace) (i id cap rights : ℕ) : Type 0 where
  pub object : Object
  pub found : Object.lookup s.objects id true ≡ ok object
  pub named : object.id ≡ id
  pub typed : object.type ≡ obj_grant
  pub payload : object.payload ≡ element user_grants i
  pub entry : Cap.lookup s cap ≡ ok (describe object rights)

pub fresh-Behind :
    (s : CapSpace) (i rights : ℕ) {id cap : ℕ} {s' s'' : CapSpace}
    → Cap.create_object s obj_grant boot_core 0 (element user_grants i) ≡ (ok id, s')
    → Cap.create s' id rights true ≡ (ok cap, s'')
    → Behind s'' i id cap rights
fresh-Behind s i rights made minted =
    let m = mint-Minted s obj_grant boot_core 0 (element user_grants i) rights made minted in
    record {
      object = m.object;
      found = m.found;
      named = m.named;
      typed = m.typed;
      payload = m.payload;
      entry = m.entry;
    }

pub reused-Behind :
    (k : Kernel) (i rights : ℕ) {cap : ℕ} {s' : CapSpace}
    → IsBacked k
    → (k.user_grants i).object_id ≢ 0
    → Cap.create k.space (k.user_grants i).object_id rights true ≡ (ok cap, s')
    → Behind s' i (k.user_grants i).object_id cap rights
reused-Behind k i rights {cap} {s'} backed used minted =
    let id = (k.user_grants i).object_id in
    let (j, o, lt, free, there, pos, e) = Laws.create-eq-ok k.space id rights true minted in
    let b = backed i used in
    let same_object : b.object ≡ o = cc (b.found, there) in
    let kept : s'.objects ≡ k.space.objects =
      ap (λ r. r.1.objects) (sym minted) ∙ objects-create k.space id rights true in
    record {
      object = o;
      found = subst (λ t. Object.lookup t id true ≡ ok o) (sym kept) there;
      named = (Object.Laws.lookup-eq-ok k.space.objects id true there).2;
      typed = ap (λ x. x.type) (sym same_object) ∙ b.typed;
      payload = ap (λ x. x.payload) (sym same_object) ∙ b.payload;
      entry = lookup-create k.space id rights true o there minted;
    }

-- A successful creation: a token with the rights asked for and REVOKE, an object behind it, and the
-- slot that the object's payload points to.
pub record Installed (k : Kernel) (slot : UserGrantSlot) (cap : ℕ) (k' : Kernel) : Type 0 where
  pub index : ℕ
  pub in_table : index < max_user_grants
  pub was_free : in_use (k.user_grants index) ≡ false
  pub id : ℕ
  pub behind : Behind k'.space index id cap (bit_or slot.rights right_revoke)
  pub grows : Grows k.space k'.space
  pub filled : k'.user_grants ≡ update k.user_grants index (record slot { object_id = id })

abbrev pub Outcome : Kernel → UserGrantSlot → Result ℕ × Kernel → Type 0
Outcome k slot (err e, k') = Grows k.space k'.space
Outcome k slot (ok cap, k') = Installed k slot cap k'

fill_slot-Outcome :
    (k : Kernel) (i : ℕ) (slot : UserGrantSlot) (id : ℕ) (r : Result ℕ × CapSpace)
    → i < max_user_grants
    → in_use (k.user_grants i) ≡ false
    → Grows k.space r.1
    → ((cap : ℕ) → r.0 ≡ ok cap → Behind r.1 i id cap (bit_or slot.rights right_revoke))
    → Outcome k slot (fill_slot k i slot id r)
unfolding fill_slot
fill_slot-Outcome k i slot id (err e, s) lt free g b = g
fill_slot-Outcome k i slot id (ok cap, s) lt free g b = record {
  index = i;
  in_table = lt;
  was_free = free;
  id = id;
  behind = b cap refl;
  grows = g;
  filled = refl;
}

fresh-Outcome :
    (k : Kernel) (i : ℕ) (slot : UserGrantSlot) (r : Result ℕ × CapSpace)
    → Cap.create_object k.space obj_grant boot_core 0 (element user_grants i) ≡ r
    → i < max_user_grants
    → in_use (k.user_grants i) ≡ false
    → Outcome k slot (finish k i slot r)
unfolding finish
fresh-Outcome k i slot (err e, s) made lt free =
    subst (Grows k.space) (ap (λ r. r.1) made)
      (object same obj_grant boot_core 0 (element user_grants i))
fresh-Outcome k i slot (ok id, s) made lt free =
    let rights = bit_or slot.rights right_revoke in
    let g =
      subst (Grows k.space) (ap (λ r. r.1) made)
        (object same obj_grant boot_core 0 (element user_grants i)) in
    fill_slot-Outcome k i slot id (Cap.create s id rights true) lt free (token g id rights)
      (λ cap e. fresh-Behind k.space i rights made (λ j. (e j, (Cap.create s id rights true).1)))

reused-Outcome :
    (k : Kernel) (i : ℕ) (slot : UserGrantSlot)
    → IsBacked k
    → (k.user_grants i).object_id ≢ 0
    → i < max_user_grants
    → in_use (k.user_grants i) ≡ false
    → Outcome k slot (finish k i slot (ok (k.user_grants i).object_id, k.space))
unfolding finish
reused-Outcome k i slot backed used lt free =
    let id = (k.user_grants i).object_id in
    let rights = bit_or slot.rights right_revoke in
    fill_slot-Outcome k i slot id (Cap.create k.space id rights true) lt free (token same id rights)
      (λ cap e.
        reused-Behind k i rights backed used (λ j. (e j, (Cap.create k.space id rights true).1)))

pub create-Outcome :
    (u : UserSpace) (k : Kernel) (task base length rights endpoint : ℕ) (out : Bool)
    → IsBacked k
    → Outcome k
        (new_slot task base length rights endpoint)
        (create u k task base length rights endpoint out)
unfolding create slot_object
create-Outcome u k task base length rights endpoint out backed =
    elim (Result-cases (check_request u k task base length rights endpoint out)) [
      | inr (e, bad) ↦ rw bad same
      | inl (t, good) ↦
          elim (Option-cases (find_slot (λ i. not (in_use (k.user_grants i))) max_user_grants 0)) [
            | inl full ↦ rw (good, full) same
            | inr (i, found) ↦
                let r =
                  find_slot-eq-some (λ i. not (in_use (k.user_grants i))) max_user_grants 0 found in
                let free : in_use (k.user_grants i) ≡ false = ground arith in
                elim (Bool-cases ((k.user_grants i).object_id == 0)) [
                  | inl empty ↦
                      rw (good, found, empty) (fresh-Outcome k i _ _ refl (omega arith) free)
                  | inr used ↦
                      rw (good, found, used)
                        (reused-Outcome k i _ backed (ground arith) (omega arith) free)
                ]
          ]
    ]
