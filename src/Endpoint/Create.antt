-- ===== src/Endpoint/Create.antt =====
-- What creating an endpoint gives: a token that reaches the handler, and nothing taken from others.
use scdk.Base.{
  ℕ, ◌<◌, ◌≡◌, ◌≢◌, refl, inl, inr, Bool, false, not, ◌||◌, arith, ◌==◌, bit_or, some, Option-cases,
  Bool-cases, update, find_slot, find_slot-eq-some, subst, update_self,
}
use scdk.Status.{Result, ok, err}
use scdk.Object.{element, endpoint_table, obj_endpoint}
use scdk.Cap
use scdk.Cap.{CapEntry, CapSpace, right_send, right_bind, has_rights}
use scdk.Cap.Laws.{IsValid}
use scdk.Cap.Growth.{
  Grows, same, Minted, check-Minted, object-Minted, new_object-cases, Grows-IsValid, Grows-lookup,
}
use scdk.Cap.Rights.{describe}
use scdk.Kernel.{Kernel, Message, max_endpoints}
use scdk.Endpoint.{Handlers, create, occupy, call, deliver, answer, resolve}

-- A successful creation: a new object, its token, and the slot that the object's payload points to.
pub record Installed (k : Kernel) (handler context cap : ℕ) (k' : Kernel) : Type 0 where
  pub core : ℕ
  pub slot : ℕ
  pub id : ℕ
  pub in_table : slot < max_endpoints
  pub nonzero : handler ≢ 0
  pub was_free : (k.endpoints slot).object_id ≡ 0
  pub minted :
      Minted obj_endpoint core
        (element endpoint_table slot)
        (bit_or right_send right_bind)
        id
        cap
        k'.space
  pub grows : Grows k.space k'.space
  pub filled :
      k'.endpoints
      ≡ update k.endpoints slot (record { object_id = id; handler = handler; context = context })

-- What a call of `scdk_endpoint_create` may leave.
abbrev Outcome : Kernel → ℕ → ℕ → Result ℕ × Kernel → Type 0
Outcome k handler context (err e, k') = Grows k.space k'.space
Outcome k handler context (ok cap, k') = Installed k handler context cap k'

occupy-Outcome :
    (k : Kernel) (i core handler context : ℕ)
    → i < max_endpoints
    → handler ≢ 0
    → (k.endpoints i).object_id ≡ 0
    → Outcome k handler context (occupy k i core handler context)
unfolding occupy
occupy-Outcome k i core handler context lt pos free =
    new_object-cases _ _ _ k.space obj_endpoint core (element endpoint_table i)
      (bit_or right_send right_bind) (Outcome k handler context) (λ e t g. g)
      (λ id cap t g m. record {
        core = core;
        slot = i;
        id = id;
        in_table = lt;
        nonzero = pos;
        was_free = free;
        minted = m;
        grows = g;
        filled = refl;
      })
      (λ e id t g. g)

create-Outcome :
    (k : Kernel) (core handler context : ℕ) (out : Bool)
    → Outcome k handler context (create k core handler context out)
unfolding create
create-Outcome k core handler context out = elim (Bool-cases (handler == 0 || not out)) [
  | inl bad ↦ rw bad same
  | inr good ↦
      elim (Option-cases (find_slot (λ i. (k.endpoints i).object_id == 0) max_endpoints 0)) [
        | inl full ↦ rw (good, full) same
        | inr (i, found) ↦
            let r = find_slot-eq-some (λ i. (k.endpoints i).object_id == 0) max_endpoints 0 found in
            rw (good, found)
              (occupy-Outcome k i core handler context (omega arith) (ground arith) (ground arith))
      ]
]

Outcome-Grows :
    (k : Kernel) (handler context : ℕ) (r : Result ℕ × Kernel)
    → Outcome k handler context r
    → Grows k.space r.1.space
Outcome-Grows k handler context (err e, k') g = g
Outcome-Grows k handler context (ok cap, k') i = i.grows

resolve-Installed :
    {k : Kernel} {handler context cap : ℕ} {k' : Kernel} (i : Installed k handler context cap k')
    → resolve k' cap
      ≡ ok (
        describe i.minted.object (bit_or right_send right_bind),
        some (record { object_id = i.id; handler = handler; context = context }),
      )
unfolding resolve
resolve-Installed {k} {handler} {context} {cap} {k'} i =
    let m = i.minted in
    let slot : k'.endpoints i.slot
        ≡ record { object_id = i.id; handler = handler; context = context } =
      rw i.filled (update_self k.endpoints i.slot _) in
    rw (check-Minted right_send m (omega arith) refl, resolve)
      (rw (object-Minted m) (rw m.payload (rw slot refl)))

-- An endpoint's new token reaches its handler: the call runs it with the context given, on the
-- message with the object's id as target, and nothing else.
call-create :
    (handlers : Handlers) (k : Kernel) (core handler context : ℕ) (out : Bool) (msg : Message)
    {cap : ℕ} {k' : Kernel}
    → create k core handler context out ≡ (ok cap, k')
    → (id : ℕ) × (entry : CapEntry) × (entry.object_id ≡ id)
      × (call handlers k' cap msg
          ≡ deliver handlers k' cap msg entry
              (record { object_id = id; handler = handler; context = context }))
unfolding call answer
call-create handlers k core handler context out msg {cap} {k'} h =
    let i = subst (Outcome k handler context) h (create-Outcome k core handler context out) in
    let test : (not (i.id == i.minted.object.id) || handler == 0) ≡ false =
      ground (arith, i.minted.named, i.nonzero) in
    (
      i.id,
      describe i.minted.object (bit_or right_send right_bind),
      i.minted.named,
      rw (resolve-Installed i, answer) (rw test refl),
    )

-- Creating an endpoint keeps the capability space well formed.
pub create-IsValid :
    (k : Kernel) (core handler context : ℕ) (out : Bool)
    → IsValid k.space
    → IsValid (create k core handler context out).1.space
create-IsValid k core handler context out v =
    Grows-IsValid (Outcome-Grows k handler context _ (create-Outcome k core handler context out)) v

-- Creating an endpoint leaves every working token working, with the same entry.
pub lookup-create :
    (k : Kernel) (core handler context : ℕ) (out : Bool) (cap : ℕ) {e : CapEntry}
    → Cap.lookup k.space cap ≡ ok e
    → Cap.lookup (create k core handler context out).1.space cap ≡ ok e
lookup-create k core handler context out cap h =
    Grows-lookup cap (Outcome-Grows k handler context _ (create-Outcome k core handler context out))
      h
