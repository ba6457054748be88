-- ===== src/Endpoint.antt =====
-- src/core/endpoint.c: endpoints, message delivery to their handlers, and the service registry.
pub mod Create
pub mod Call
pub mod Services
use scdk.Base.{
  ℕ, bit_or, Bool, true, false, not, ◌||◌, Option, none, some, ◌==◌, if◌then◌else◌, update,
  find_slot,
}
use scdk.Status.{Error, Result, Status, ok, err, inval, nomem, noent, busy, status_word, checked}
use scdk.Object
use scdk.Object.{Pointer, null, element, address, StaticTable, endpoint_table, obj_endpoint}
use scdk.Cap
use scdk.Cap.{CapEntry, CapSpace, right_send, right_bind, new_object}
use scdk.Kernel.{
  Kernel, Message, Endpoint, ServiceSlot, max_endpoints, max_services, empty_endpoint,
}

-- A kernel with another space, and with endpoint `i` set.
abbrev pub with_endpoint : Kernel → ℕ → Endpoint → CapSpace → Kernel
with_endpoint k i e s = record k { space = s; endpoints = update k.endpoints i e }

-- The body of its loop at a free slot.
pub occupy : Kernel → ℕ → ℕ → ℕ → ℕ → Result ℕ × Kernel
unfolding new_object
occupy k i owner_core handler context =
    new_object (λ s. record k { space = s })
      (λ id. with_endpoint k i (record { object_id = id; handler = handler; context = context }))
      (λ id. with_endpoint k i empty_endpoint) k.space obj_endpoint owner_core
      (element endpoint_table i) (bit_or right_send right_bind)

-- `scdk_endpoint_create`; `out` says that `out_endpoint` is not null.
unfoldable pub create : Kernel → ℕ → ℕ → ℕ → Bool → Result ℕ × Kernel
unfolding occupy
create k owner_core handler context out =
    if handler == 0 || not out
    then (err inval, k)
    else elim (find_slot (λ i. (k.endpoints i).object_id == 0) max_endpoints 0) [
      | none ↦ (err nomem, k)
      | some i ↦ occupy k i owner_core handler context
    ]

-- What `object->payload` of an endpoint object points to. `occupy` alone makes such objects, so the
-- pointer is never another.
abbrev pub endpoint_at : Kernel → Pointer → Option Endpoint
endpoint_at k (element endpoint_table i) = some (k.endpoints i)
endpoint_at k _ = none

-- The two lookups of `scdk_endpoint_call`: the capability's entry and the endpoint behind it.
unfoldable pub resolve : Kernel → ℕ → Result (CapEntry × Option Endpoint)
resolve k cap = elim (Cap.check k.space cap right_send obj_endpoint) [
  | err e ↦ err e
  | ok entry ↦ elim (Object.lookup k.space.objects entry.object_id true) [
    | err e ↦ err e
    | ok object ↦ ok (entry, endpoint_at k object.payload)
  ]
]

-- A handler returns its status, what it wrote to the message, and the kernel it leaves.
abbrev pub Handlers : Type 0
Handlers = ℕ → ℕ → Message → ℕ → Kernel → Status × Message × Kernel

abbrev pub refuse : Error → Message → Kernel → Status × Message × Kernel
refuse e msg k = (err e, record msg { status = status_word {A = Unit {0}} (err e) }, k)

-- The handler's call, and the two fields that `scdk_endpoint_call` writes round it.
pub deliver : Handlers → Kernel → ℕ → Message → CapEntry → Endpoint → Status × Message × Kernel
deliver handlers k cap msg entry target =
    let (status, msg', k') =
      handlers target.handler cap (record msg { target = entry.object_id }) target.context k in
    (status, record msg' { status = status_word status }, k')

-- `scdk_endpoint_call` past the lookups.
pub answer :
    Handlers
    → Kernel
    → ℕ
    → Message
    → Result (CapEntry × Option Endpoint)
    → Status × Message × Kernel
answer handlers k cap msg (err e) = refuse e msg k
answer handlers k cap msg (ok (entry, none)) = refuse noent msg k
answer handlers k cap msg (ok (entry, some target)) =
    if not (target.object_id == entry.object_id) || target.handler == 0
    then refuse noent msg k
    else deliver handlers k cap msg entry target

-- `scdk_endpoint_call` on a message that is not null. `handlers` is what the function pointers call.
unfoldable pub call : Handlers → Kernel → ℕ → Message → Status × Message × Kernel
unfolding deliver answer
call handlers k cap msg = answer handlers k cap msg (resolve k cap)

-- `scdk_service_register`
unfoldable pub register : Kernel → ℕ → ℕ → Status × Kernel
register k service_id endpoint =
    if service_id == 0
    then (err inval, k)
    else checked (Cap.check k.space endpoint right_bind obj_endpoint) k λ entry.
      elim (find_slot (λ i. (k.services i).service_id == service_id) max_services 0) [
        | some i ↦ (err busy, k)
        | none ↦ elim (find_slot (λ i. (k.services i).service_id == 0) max_services 0) [
          | none ↦ (err nomem, k)
          | some i ↦ (
            ok tt,
            record k {
              services =
                  update k.services i (record { service_id = service_id; endpoint = endpoint });
            },
          )
        ]
      ]

-- `scdk_service_lookup`; `out` says that `out_endpoint` is not null.
unfoldable pub service : Kernel → ℕ → Bool → Result ℕ
service k service_id out =
    if service_id == 0 || not out
    then err inval
    else elim (find_slot (λ i. (k.services i).service_id == service_id) max_services 0) [
      | none ↦ err noent
      | some i ↦ ok (k.services i).endpoint
    ]
