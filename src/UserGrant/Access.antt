-- ===== src/UserGrant/Access.antt =====
-- What an access through a user grant keeps to, and what revoking one ends.
use scdk.Base.{
  ℕ, ◌+◌, ◌-◌, ◌%◌, ◌^◌, ◌≤◌, ◌<◌, ◌≡◌, ◌≢◌, ◌⊎◌, refl, sym, ◌∙◌, ap, subst, inl, inr, Bool, true,
  false, arith, List, length,
}
use scdk.Status.{ok, err, noent, Result-cases}
use scdk.Object
use scdk.Object.{
  Object, Pointer, null, element, address, StaticTable, endpoint_table, ring_table, grant_table,
  user_grants, task_table, thread_table, open_files, obj_grant, obj_task, obj_endpoint,
}
use scdk.Cap
use scdk.Cap.{CapEntry, has_rights, right_read, right_send, right_revoke}
use scdk.Cap.Laws.{IsValid, check-lookup}
use scdk.Cap.Stale
use scdk.Cap.Stale.{Op}
use scdk.Kernel.{Kernel, UserGrantSlot}
use scdk.UserSpace.{UserSpace, validate_range, read_bytes}
use scdk.UserSpace.Validate.{copy_from-eq-ok}
use scdk.UserGrant.{
  read_as_user_grant, user_grant_at, mark_revoked, check_binding, lookup, check_range, revoke,
  validate_access, copy_from_grant,
}

-- The slot that a grant object's payload points to: one of the user grants, or a kernel grant's slot
-- read as one.
abbrev pub InSlot : Kernel → Pointer → UserGrantSlot → Type 0
InSlot k p slot =
    ((i : ℕ) × (p ≡ element user_grants i) × (slot ≡ k.user_grants i))
    ⊎ ((i : ℕ) × (p ≡ element grant_table i) × (slot ≡ read_as_user_grant (k.grants i)))

user_grant_at-InSlot :
    (k : Kernel) (p : Pointer) {slot : UserGrantSlot}
    → user_grant_at k p ≡ ok slot
    → InSlot k p slot
user_grant_at-InSlot k (element user_grants i) h = inl (i, refl, ground arith)
user_grant_at-InSlot k (element grant_table i) h = inr (i, refl, ground arith)
user_grant_at-InSlot k null h = absurd (ground arith)
user_grant_at-InSlot k (address a) h = absurd (ground arith)
user_grant_at-InSlot k (element endpoint_table i) h = absurd (ground arith)
user_grant_at-InSlot k (element ring_table i) h = absurd (ground arith)
user_grant_at-InSlot k (element task_table i) h = absurd (ground arith)
user_grant_at-InSlot k (element thread_table i) h = absurd (ground arith)
user_grant_at-InSlot k (element open_files i) h = absurd (ground arith)

-- A lookup that succeeds: the token's rights, its object, and the slot that the object's payload
-- points to, which is the object's and not revoked.
pub record Found (k : Kernel) (cap required : ℕ) (live : Bool) (slot : UserGrantSlot) : Type 0 where
  pub entry : CapEntry
  pub checked : Cap.check k.space cap required obj_grant ≡ ok entry
  pub object : Object
  pub there : Object.lookup k.space.objects entry.object_id true ≡ ok object
  pub place : InSlot k object.payload slot
  pub owned : slot.object_id ≡ entry.object_id
  pub open_grant : slot.revoked ≡ false
  pub bound : check_binding k slot live ≡ ok tt

pub lookup-Found :
    (k : Kernel) (cap required : ℕ) (live : Bool) {p : Pointer} {slot : UserGrantSlot}
    → lookup k cap required live ≡ ok (p, slot)
    → Found k cap required live slot
unfolding lookup
lookup-Found k cap required live {p} {slot} h =
    elim (Result-cases (Cap.check k.space cap required obj_grant)) [
      | inr (e, bad) ↦ absurd (ground arith)
      | inl (entry, good) ↦
          elim (Result-cases (Object.lookup k.space.objects entry.object_id true)) [
            | inr (e, bad) ↦ absurd (ground arith)
            | inl (object, there) ↦ elim (Result-cases (user_grant_at k object.payload)) [
              | inr (e, bad) ↦ absurd (ground arith)
              | inl (s, at) ↦ elim (Result-cases (check_binding k s live)) [
                | inr (e, bad) ↦ absurd (ground arith)
                | inl (u, bound) ↦
                    let same : s ≡ slot = ground arith in
                    record {
                      entry = entry;
                      checked = good;
                      object = object;
                      there = there;
                      place =
                          subst (InSlot k object.payload) same
                            (user_grant_at-InSlot k object.payload at);
                      owned = ground arith;
                      open_grant = ground arith;
                      bound = subst (λ x. check_binding k x live ≡ ok tt) same (ground arith);
                    }
              ]
            ]
          ]
    ]

-- The two tokens that a live grant is bound to.
binding-live :
    (k : Kernel) (slot : UserGrantSlot)
    → check_binding k slot true ≡ ok tt
    → ((t : CapEntry) × (Cap.check k.space slot.source_task right_read obj_task ≡ ok t))
      × ((e : CapEntry) × (Cap.check k.space slot.target_endpoint right_send obj_endpoint ≡ ok e))
unfolding check_binding
binding-live k slot h =
    elim (Result-cases (Cap.check k.space slot.source_task right_read obj_task)) [
      | inr (x, bad) ↦ absurd (ground arith)
      | inl (t, task) ↦
          elim (Result-cases (Cap.check k.space slot.target_endpoint right_send obj_endpoint)) [
            | inr (x, bad) ↦ absurd (ground arith)
            | inl (e, endpoint) ↦ ((t, task), (e, endpoint))
          ]
    ]

-- What every access to a user grant needs.
pub record Allowed (k : Kernel) (cap offset size required : ℕ) (slot : UserGrantSlot) : Type 0 where
  pub found : Found k cap required true slot
  pub inside : offset + size ≤ slot.length
  pub some_bytes : 0 < size
  pub holds : has_rights slot.rights required ≡ true
  pub task : (t : CapEntry) × (Cap.check k.space slot.source_task right_read obj_task ≡ ok t)
  pub endpoint :
      (e : CapEntry) × (Cap.check k.space slot.target_endpoint right_send obj_endpoint ≡ ok e)

range-Allowed :
    (k : Kernel) (cap offset size required : ℕ) {p : Pointer} {slot : UserGrantSlot}
    → lookup k cap required true ≡ ok (p, slot)
    → check_range slot offset size required ≡ ok tt
    → Allowed k cap offset size required slot
unfolding check_range
range-Allowed k cap offset size required {p} {slot} found range =
    let f = lookup-Found k cap required true found in
    let b = binding-live k slot f.bound in
    record {
      found = f;
      inside = ground arith;
      some_bytes = ground arith;
      holds = ground arith;
      task = b.0;
      endpoint = b.1;
    }

-- An access is granted only within the grant, with rights that both the token and the grant hold,
-- while the grant is not revoked and the tokens of its task and of its endpoint still work.
validate_access-Allowed :
    (k : Kernel) (cap offset size required : ℕ)
    → validate_access k cap offset size required ≡ ok tt
    → (slot : UserGrantSlot) × Allowed k cap offset size required slot
unfolding validate_access
validate_access-Allowed k cap offset size required h =
    elim (Result-cases (lookup k cap required true)) [
      | inr (e, bad) ↦ absurd (ground arith)
      | inl ((p, slot), found) ↦
          (slot, range-Allowed k cap offset size required found (ground arith))
    ]

-- A copy through a grant that succeeds has a token that reads, whose object's payload points to the
-- slot of a user grant, or to that of a kernel grant read as one. By that slot the grant is the
-- object's, not revoked, for the endpoint that copies, with the range inside it and the right to
-- read, and the tokens of its task and of its endpoint work. The result is the bytes of the user's
-- memory at the offset, whose pages all passed the range check.
pub copy_from_grant-Allowed :
    (u : UserSpace) (k : Kernel) (target cap offset size : ℕ) (dst : Bool) {bs : List ℕ}
    → copy_from_grant u k target cap offset dst size ≡ ok bs
    → (slot : UserGrantSlot) × Allowed k cap offset size right_read slot
      × (slot.target_endpoint ≡ target)
      × (validate_range u ((slot.user_base + offset) % 2 ^ 64) size false ≡ ok tt)
      × (bs ≡ read_bytes u ((slot.user_base + offset) % 2 ^ 64) size)
      × (length bs ≡ size)
unfolding copy_from_grant
copy_from_grant-Allowed u k target cap offset size dst {bs} h =
    elim (Result-cases (lookup k cap right_read true)) [
      | inr (e, bad) ↦ absurd (ground arith)
      | inl ((p, slot), found) ↦ elim (Result-cases (check_range slot offset size right_read)) [
        | inr (e, bad) ↦ absurd (ground arith)
        | inl (x, range) ↦
            let a = range-Allowed k cap offset size right_read found (ground arith) in
            let c =
              copy_from-eq-ok u ((slot.user_base + offset) % 2 ^ 64) size dst {bs = bs}
                (ground arith) in
            (slot, a, ground arith, c.0, c.1, c.2)
      ]
    ]

-- Revoking a grant is revoking its token in the capability space.
space-mark_revoked : (k : Kernel) (p : Pointer) → (mark_revoked k p).space ≡ k.space
space-mark_revoked k p = ground arith

revoke-space :
    (k : Kernel) (cap : ℕ) {k' : Kernel}
    → revoke k cap ≡ (ok tt, k')
    → (k'.space ≡ (Cap.revoke k.space cap).1) × ((e : CapEntry) × (Cap.lookup k.space cap ≡ ok e))
unfolding revoke
revoke-space k cap {k'} h = elim (Result-cases (lookup k cap right_revoke false)) [
  | inr (e, bad) ↦ absurd (ground arith)
  | inl ((p, slot), found) ↦
      let f = lookup-Found k cap right_revoke false found in
      (
        ground (arith, space-mark_revoked k p),
        (f.entry, check-lookup k.space cap right_revoke obj_grant f.checked),
      )
]

-- After a grant is revoked its token gives no access, at once and after any further history of fewer
-- than 2 ^ 32 - 2 calls on the capability space, whatever becomes of the grant's slot.
pub validate_access_revoked :
    (k k' k'' : Kernel) (cap offset size required : ℕ) (ops : List Op)
    → IsValid k.space
    → revoke k cap ≡ (ok tt, k')
    → length ops < 2 ^ 32 - 2
    → k''.space ≡ Stale.run k'.space ops
    → required ≢ 0
    → validate_access k'' cap offset size required ≡ err noent
unfolding validate_access lookup
validate_access_revoked k k' k'' cap offset size required ops v h few hist pos =
    let r = revoke-space k cap h in
    let gone = Stale.check-run-revoke k.space cap required obj_grant ops v r.1.1 few pos in
    let fails : Cap.check k''.space cap required obj_grant ≡ err noent =
      subst (λ s. Cap.check s cap required obj_grant ≡ err noent)
        (sym (hist ∙ ap (λ s. Stale.run s ops) r.0)) gone in
    ground arith
