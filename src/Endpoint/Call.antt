-- ===== src/Endpoint/Call.antt =====
-- Delivery: who reaches a handler, with what, and what the caller sees.
use scdk.Base.{
  ℕ, ◌^◌, ◌<◌, ◌-◌, ◌≡◌, ◌≢◌, ◌⊎◌, refl, sym, ap, ◌∙◌, inl, inr, true, false, not, ◌||◌, arith,
  ◌==◌, subst, Option, none, some, List, length, Bool-cases,
}
use scdk.Status.{Error, Result, ok, err, noent, status_word, Result-cases}
use scdk.Object
use scdk.Object.{
  Object, Pointer, null, element, address, StaticTable, endpoint_table, ring_table, grant_table,
  user_grants, task_table, thread_table, open_files, obj_endpoint,
}
use scdk.Cap
use scdk.Cap.{CapEntry, right_send, has_rights}
use scdk.Cap.Laws.{IsValid, Held, check-eq-ok}
use scdk.Cap.Stale
use scdk.Cap.Stale.{Op}
use scdk.Kernel.{Kernel, Message, Endpoint}
use scdk.Endpoint.{Handlers, resolve, endpoint_at, deliver, answer, refuse, call}

-- A payload points to an endpoint's slot, or to no endpoint.
endpoint_at-cases :
    (k : Kernel) (p : Pointer)
    → (endpoint_at k p ≡ none)
      ⊎ ((i : ℕ) × (p ≡ element endpoint_table i) × (endpoint_at k p ≡ some (k.endpoints i)))
endpoint_at-cases k (element endpoint_table i) = inr (i, refl, refl)
endpoint_at-cases k null = inl refl
endpoint_at-cases k (address a) = inl refl
endpoint_at-cases k (element ring_table i) = inl refl
endpoint_at-cases k (element grant_table i) = inl refl
endpoint_at-cases k (element user_grants i) = inl refl
endpoint_at-cases k (element task_table i) = inl refl
endpoint_at-cases k (element thread_table i) = inl refl
endpoint_at-cases k (element open_files i) = inl refl

element_index : {i j : ℕ} → element endpoint_table i ≡ element endpoint_table j → i ≡ j
element_index {i} e = ap (λ (p : Pointer). elim p [ null ↦ i | element t n ↦ n | address a ↦ a ]) e

no_endpoint :
    (k : Kernel) (p : Pointer) (i : ℕ) → endpoint_at k p ≡ none → p ≡ element endpoint_table i → ⊥
no_endpoint k p i h here =
    let there : endpoint_at k (element endpoint_table i) ≡ none =
      ap (endpoint_at k) (sym here) ∙ h in
    absurd (ground arith)

module _ (handlers : Handlers) (k : Kernel) (cap : ℕ) (msg : Message) where
  status-answer :
      (r : Result (CapEntry × Option Endpoint))
      → (answer handlers k cap msg r).1.status ≡ status_word (answer handlers k cap msg r).0
  unfolding answer deliver
  status-answer (err e) = refl
  status-answer (ok (entry, none)) = refl
  status-answer (ok (entry, some target)) =
      elim (Bool-cases (not (target.object_id == entry.object_id) || target.handler == 0)) [
        | inl bad ↦ rw bad refl
        | inr good ↦ rw good refl
      ]

  -- The status in the message is the status returned, whatever the handler wrote there.
  status-call : (call handlers k cap msg).1.status ≡ status_word (call handlers k cap msg).0
  unfolding call
  status-call = status-answer (resolve k cap)

  -- A token that does not pass the check for SEND on an endpoint reaches no handler: the kernel is
  -- unchanged, and the check's error is returned.
  pub call_refused :
      {e : Error}
      → Cap.check k.space cap right_send obj_endpoint ≡ err e
      → call handlers k cap msg ≡ refuse e msg k
  unfolding call resolve
  call_refused h = rw (h, call, resolve) refl

  -- A token that leads to an endpoint of its object runs the handler on the message with the
  -- object's id as target, and the status goes into the message that comes back.
  pub call-resolved :
      (entry : CapEntry) (target : Endpoint)
      → resolve k cap ≡ ok (entry, some target)
      → target.object_id ≡ entry.object_id
      → target.handler ≢ 0
      → let (status, reply, k') =
          handlers target.handler cap (record msg { target = entry.object_id }) target.context k in
        call handlers k cap msg ≡ (status, record reply { status = status_word status }, k')
  unfolding call deliver
  call-resolved entry target at owned installed =
      let fine : (not (target.object_id == entry.object_id) || target.handler == 0) ≡ false =
        ground arith in
      rw (at, call) (rw (fine, answer) refl)

  -- A handler that ran: its token holds SEND on an object whose payload points to an endpoint's
  -- slot, and the slot is the object's. The handler there gets the message with the object's id as
  -- target, and the message that comes back has the status returned.
  pub record Delivered : Type 0 where
    pub entry : CapEntry
    pub object : Object
    pub index : ℕ
    pub held : Held k.space cap entry
    pub sends : has_rights entry.rights right_send ≡ true
    pub typed : entry.object_type ≡ obj_endpoint
    pub there : Object.lookup k.space.objects entry.object_id true ≡ ok object
    pub place : object.payload ≡ element endpoint_table index
    pub owned : (k.endpoints index).object_id ≡ entry.object_id
    pub installed : (k.endpoints index).handler ≢ 0
    pub delivered :
        let target = k.endpoints index in
        let (status, reply, k') =
          handlers target.handler cap (record msg { target = entry.object_id }) target.context k in
        call handlers k cap msg ≡ (status, record reply { status = status_word status }, k')

  -- Why a call is refused: the token's check fails, or the lookup of its object, or the payload
  -- points to no endpoint's slot that is the object's and has a handler.
  abbrev pub Reason : Error → Type 0
  Reason e =
      (Cap.check k.space cap right_send obj_endpoint ≡ err e)
      ⊎ ((entry : CapEntry) × (Cap.check k.space cap right_send obj_endpoint ≡ ok entry)
          × (Object.lookup k.space.objects entry.object_id true ≡ err e))
      ⊎ ((entry : CapEntry) × (object : Object) × (Cap.check k.space cap right_send obj_endpoint
            ≡ ok entry)
          × (Object.lookup k.space.objects entry.object_id true ≡ ok object)
          × (e ≡ noent)
          × ((i : ℕ)
              → object.payload ≡ element endpoint_table i
              → (k.endpoints i).object_id ≡ entry.object_id
              → (k.endpoints i).handler ≡ 0))

  -- A call refused: an error with its reason, its word in the message that comes back, and the
  -- kernel as it was.
  abbrev pub Refused : Type 0
  Refused =
      (e : Error) × Reason e
      × (call handlers k cap msg
          ≡ (err e, record msg { status = status_word {A = Unit {0}} (err e) }, k))

  call-at :
      (entry : CapEntry) (object : Object) (index : ℕ)
      → Cap.check k.space cap right_send obj_endpoint ≡ ok entry
      → Object.lookup k.space.objects entry.object_id true ≡ ok object
      → object.payload ≡ element endpoint_table index
      → resolve k cap ≡ ok (entry, some (k.endpoints index))
      → Refused ⊎ Delivered
  unfolding call
  call-at entry object index good there place at =
      let target = k.endpoints index in
      elim (Bool-cases (not (target.object_id == entry.object_id) || target.handler == 0)) [
        | inl bad ↦
            let absent : (i : ℕ)
                → object.payload ≡ element endpoint_table i
                → (k.endpoints i).object_id ≡ entry.object_id
                → (k.endpoints i).handler ≡ 0 =
              λ i here mine.
                let same : index ≡ i = element_index (sym place ∙ here) in ground arith in
            inl (
              noent,
              inr (inr (entry, object, good, there, refl, absent)),
              rw (at, call) (rw (bad, answer) refl),
            )
        | inr fine ↦
            let c = check-eq-ok k.space cap right_send obj_endpoint good in
            let owned : target.object_id ≡ entry.object_id = ground arith in
            let installed : target.handler ≢ 0 = ground arith in
            inr (record {
              entry = entry;
              object = object;
              index = index;
              held = c.0;
              sends = c.1;
              typed = ground (arith, c.2);
              there = there;
              place = place;
              owned = owned;
              installed = installed;
              delivered = call-resolved entry target at owned installed;
            })
      ]

  -- A call is refused with the error of the token's check for SEND or of the object's lookup, or with
  -- SCDK_ERR_NOENT where the object's payload is no endpoint of the object with a handler, and then
  -- the kernel is as before; or it is the call of the handler installed in the endpoint's slot to
  -- which the payload of the object points that the token has SEND on.
  pub call-cases : Refused ⊎ Delivered
  unfolding call resolve
  call-cases = elim (Result-cases (Cap.check k.space cap right_send obj_endpoint)) [
    | inr (e, bad) ↦ inl (e, inl bad, call_refused bad)
    | inl (entry, good) ↦ elim (Result-cases (Object.lookup k.space.objects entry.object_id true)) [
      | inr (e, bad) ↦ inl (e, inr (inl (entry, good, bad)), rw (good, call, resolve) (rw bad refl))
      | inl (object, there) ↦
          let at : resolve k cap ≡ ok (entry, endpoint_at k object.payload) =
            rw (good, resolve) (rw there refl) in
          elim (endpoint_at-cases k object.payload) [
            | inl none_there ↦ inl (
              noent,
              inr (
                  inr (
                    entry,
                    object,
                    good,
                    there,
                    refl,
                    λ i here mine. absurd (no_endpoint k object.payload i none_there here),
                  )),
              rw (at ∙ ap (λ t. ok (entry, t)) none_there, call) refl,
            )
            | inr (index, place, found) ↦
                call-at entry object index good there place (at ∙ ap (λ t. ok (entry, t)) found)
          ]
    ]
  ]

-- A revoked endpoint token delivers nothing, at once and after any further history of fewer than
-- 2 ^ 32 - 2 calls on the capability space.
call_revoked :
    (handlers : Handlers) (k k' : Kernel) (cap : ℕ) (msg : Message) (ops : List Op) {e : CapEntry}
    → IsValid k.space
    → Cap.lookup k.space cap ≡ ok e
    → length ops < 2 ^ 32 - 2
    → k'.space ≡ Stale.run (Cap.revoke k.space cap).1 ops
    → call handlers k' cap msg
      ≡ (err noent, record msg { status = status_word {A = Unit {0}} (err noent) }, k')
call_revoked handlers k k' cap msg ops v h few e = call_refused handlers k' cap msg (
    subst (λ s. Cap.check s cap right_send obj_endpoint ≡ err noent) (sym e)
      (Stale.check-run-revoke k.space cap right_send obj_endpoint ops v h few (omega arith)))
