-- ===== src/Tests/Calls.antt =====
-- Endpoints and services at concrete inputs.
use scdk.Base.{◌^◌, ◌≡◌, ◌⊎◌, refl, true, find_slot, [], ◌∷◌}
use scdk.Status.{ok}
use scdk.Object
use scdk.Object.{obj_endpoint}
use scdk.Object.Words.{make_id, id_index, id_generation, next_generation}
use scdk.Cap
use scdk.Cap.{CapEntry, right_bind}
use scdk.Cap.Laws.{IsValid, empty_space-IsValid}
use scdk.Cap.Stale.{withdraw, run}
use scdk.Kernel.{Kernel, Message, boot}
use scdk.Endpoint
use scdk.Endpoint.{Handlers, deliver, refuse, call, register, service}
use scdk.Endpoint.Create.{create-IsValid}
use scdk.Endpoint.Call.{Delivered, Refused, call-cases}

-- A handler that writes its context into the message.
abbrev pub echo : Handlers
echo handler endpoint msg context k = (ok tt, record msg { arg0 = context }, k)

abbrev hello : Message
hello = record {
  sender = 5;
  target = 0;
  type = 3;
  arg0 = 0;
  arg1 = 0;
  arg2 = 0;
  arg3 = 0;
  status = 0;
}

abbrev pub with_endpoint : Kernel
with_endpoint = (Endpoint.create boot 0 1 7 true).1

endpoint_made : Endpoint.create boot 0 1 7 true ≡ (ok (2 ^ 32), with_endpoint)
unfolding Endpoint.create find_slot Cap.create_object Object.create Cap.create Object.lookup make_id
    next_generation id_index id_generation
endpoint_made = refl

abbrev endpoint_entry : CapEntry
endpoint_entry = record {
  object_id = 2 ^ 32;
  generation = 1;
  object_type = obj_endpoint;
  revoked = 0;
  rights = 80;
}

endpoint_found : Cap.lookup with_endpoint.space (2 ^ 32) ≡ ok endpoint_entry
unfolding Cap.lookup Cap.validate id_index id_generation Endpoint.create find_slot Cap.create_object
    Object.create Cap.create Object.lookup make_id next_generation
endpoint_found = refl

with_endpoint-IsValid : IsValid with_endpoint.space
with_endpoint-IsValid = create-IsValid boot 0 1 7 true empty_space-IsValid

call-cases_example :
    Refused echo with_endpoint (2 ^ 32) hello ⊎ Delivered echo with_endpoint (2 ^ 32) hello
call-cases_example = call-cases echo with_endpoint (2 ^ 32) hello

abbrev closed : Kernel
closed = record with_endpoint {
  space = run (Cap.revoke with_endpoint.space (2 ^ 32)).1 (withdraw (2 ^ 32) ∷ []);
}

abbrev with_service : Kernel
with_service = (register with_endpoint 4 (2 ^ 32)).1

service_made : register with_endpoint 4 (2 ^ 32) ≡ (ok tt, with_service)
unfolding register Cap.check Cap.lookup Cap.validate id_index id_generation Endpoint.create
    find_slot Cap.create_object Object.create Cap.create Object.lookup make_id next_generation
service_made = refl
