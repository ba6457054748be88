-- ===== src/UserGrant/Backing.antt =====
-- Every used slot of the user grants has its object, at boot and after any call of user_grant.c.
use scdk.Base.{
  ℕ, ◌≡◌, ◌≢◌, refl, sym, ◌∙◌, ap, subst, inl, inr, Bool, true, false, not, arith, ◌==◌, bit_or,
  Option-cases, Bool-cases, find_slot,
}
use scdk.Status.{Result, ok, err, Result-cases}
use scdk.Object
use scdk.Object.{Pointer, element, user_grants, grant_table, obj_grant, boot_core}
use scdk.Cap
use scdk.Cap.{CapSpace, right_revoke}
use scdk.Cap.Growth.{Grows, same, object, token, Grows-object}
use scdk.Cap.Preserve.{objects-revoke}
use scdk.Kernel.{Kernel, UserGrantSlot, max_user_grants, boot}
use scdk.UserSpace.{UserSpace}
use scdk.UserGrant.{
  in_use, slot_object, fill_slot, finish, new_slot, check_request, create, mark_revoked, lookup,
  revoke,
}
use scdk.UserGrant.Create.{Backed, IsBacked, Behind, fresh-Behind, reused-Behind}

pub boot-IsBacked : IsBacked boot
boot-IsBacked i used = absurd (used refl)

-- A slot that is unchanged keeps its object as the space grows.
Backed-mono :
    (k k' : Kernel) (j : ℕ)
    → Grows k.space k'.space
    → k'.user_grants j ≡ k.user_grants j
    → Backed k j
    → Backed k' j
Backed-mono k k' j g kept b = record {
  object = b.object;
  found =
      subst (λ s. Object.lookup k'.space.objects s.object_id true ≡ ok b.object) (sym kept)
        (Grows-object (k.user_grants j).object_id g b.found);
  payload = b.payload;
  typed = b.typed;
}

module _ (k : Kernel) (i : ℕ) (slot : UserGrantSlot) (backed : IsBacked k) where
  fill_slot-IsBacked :
      (id : ℕ) (r : Result ℕ × CapSpace)
      → Grows k.space r.1
      → ((k.user_grants i).object_id ≢ 0 → id ≡ (k.user_grants i).object_id)
      → ((cap : ℕ) → r.0 ≡ ok cap → Behind r.1 i id cap (bit_or slot.rights right_revoke))
      → IsBacked (fill_slot k i slot id r).1
  unfolding fill_slot
  fill_slot-IsBacked id (ok cap, s) g old b j used = elim (Bool-cases (i == j)) [
    | inl here ↦
        let e : i ≡ j = ground arith in
        let n = b cap refl in
        record {
          object = n.object;
          found = rw here n.found;
          payload = n.payload ∙ ap (element user_grants) e;
          typed = n.typed;
        }
    | inr other ↦ Backed-mono k _ j g (ground arith) (backed j (ground arith))
  ]
  fill_slot-IsBacked id (err e, s) g old b j used = elim (Bool-cases (i == j)) [
    | inl here ↦ elim (Bool-cases ((k.user_grants i).object_id == 0)) [
      | inl empty ↦ absurd (used (ground arith))
      | inr full ↦
          let n = backed i (ground arith) in
          let e : i ≡ j = ground arith in
          let kept = Grows-object (k.user_grants i).object_id g n.found in
          record {
            object = n.object;
            found = rw (here, full) (rw (old (ground arith)) kept);
            payload = n.payload ∙ ap (element user_grants) e;
            typed = n.typed;
          }
    ]
    | inr other ↦ Backed-mono k _ j g (ground arith) (backed j (ground arith))
  ]

  fresh-IsBacked :
      (r : Result ℕ × CapSpace)
      → Cap.create_object k.space obj_grant boot_core 0 (element user_grants i) ≡ r
      → (k.user_grants i).object_id ≡ 0
      → IsBacked (finish k i slot r).1
  unfolding finish
  fresh-IsBacked (err e, s) made empty = λ j used.
      Backed-mono k (record k { space = s }) j
        (subst (Grows k.space) (ap (λ r. r.1) made)
          (object same obj_grant boot_core 0 (element user_grants i)))
        refl (backed j used)
  fresh-IsBacked (ok id, s) made empty =
      let rights = bit_or slot.rights right_revoke in
      let g =
        subst (Grows k.space) (ap (λ r. r.1) made)
          (object same obj_grant boot_core 0 (element user_grants i)) in
      fill_slot-IsBacked id (Cap.create s id rights true) (token g id rights)
        (λ full. absurd (full empty))
        (λ cap e. fresh-Behind k.space i rights made (λ j. (e j, (Cap.create s id rights true).1)))

  reused-IsBacked :
      (k.user_grants i).object_id ≢ 0
      → IsBacked (finish k i slot (ok (k.user_grants i).object_id, k.space)).1
  unfolding finish
  reused-IsBacked used =
      let id = (k.user_grants i).object_id in
      let rights = bit_or slot.rights right_revoke in
      fill_slot-IsBacked id (Cap.create k.space id rights true) (token same id rights)
        (λ full. refl)
        (λ cap e.
          reused-Behind k i rights backed used (λ j. (e j, (Cap.create k.space id rights true).1)))

-- Creating a user grant, successful or not, keeps every used slot backed by its object.
pub create-IsBacked :
    (u : UserSpace) (k : Kernel) (task base length rights endpoint : ℕ) (out : Bool)
    → IsBacked k
    → IsBacked (create u k task base length rights endpoint out).1
unfolding create slot_object
create-IsBacked u k task base length rights endpoint out backed =
    elim (Result-cases (check_request u k task base length rights endpoint out)) [
      | inr (e, bad) ↦ rw bad backed
      | inl (t, good) ↦
          elim (Option-cases (find_slot (λ i. not (in_use (k.user_grants i))) max_user_grants 0)) [
            | inl full ↦ rw (good, full) backed
            | inr (i, found) ↦ elim (Bool-cases ((k.user_grants i).object_id == 0)) [
              | inl empty ↦
                  rw (good, found, empty)
                    (fresh-IsBacked k i (new_slot task base length rights endpoint) backed _ refl
                      (ground arith))
              | inr used ↦
                  rw (good, found, used)
                    (reused-IsBacked k i (new_slot task base length rights endpoint) backed
                      (ground arith))
            ]
          ]
    ]

mark_revoked-Backed : (k : Kernel) (p : Pointer) → IsBacked k → IsBacked (mark_revoked k p)
mark_revoked-Backed k p backed j used =
    let b = backed j (ground arith) in
    record {
      object = b.object;
      found = ground (arith, b.found);
      payload = b.payload;
      typed = b.typed;
    }

-- Revoking a user grant, successful or not, keeps every used slot backed by its object.
revoke-IsBacked : (k : Kernel) (cap : ℕ) → IsBacked k → IsBacked (revoke k cap).1
unfolding revoke
revoke-IsBacked k cap backed = elim (Result-cases (lookup k cap right_revoke false)) [
  | inr (e, bad) ↦ rw bad backed
  | inl ((p, slot), found) ↦ rw found λ j used.
      let b = mark_revoked-Backed k p backed j used in
      record {
        object = b.object;
        found =
            subst
              (λ t. Object.lookup t ((mark_revoked k p).user_grants j).object_id true ≡ ok b.object)
              (sym (objects-revoke (mark_revoked k p).space cap)) b.found;
        payload = b.payload;
        typed = b.typed;
      }
]
