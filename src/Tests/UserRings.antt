-- ===== src/Tests/UserRings.antt =====
-- A task's ring at concrete inputs.
use scdk.Base.{◌+◌, ◌^◌, ◌≡◌, refl, true, find_slot}
use scdk.Status.{ok}
use scdk.Object
use scdk.Object.{obj_task, null}
use scdk.Object.Words.{make_id, id_index, id_generation, next_generation}
use scdk.Cap
use scdk.Cap.{CapSpace, right_read}
use scdk.Kernel.{Kernel, boot}
use scdk.Endpoint
use scdk.Ring as Rings
use scdk.Ring.{fresh_ring}
use scdk.UserSpace.{UserSpace, validate_range, checked_user_end, copy_to}
use scdk.UserRing
use scdk.UserRing.{slot_for, bind, validate_count, check_target}
use scdk.UserRing.Batch.{poll, poll_completions}

abbrev with_endpoint : Kernel
with_endpoint = (Endpoint.create boot 0 1 7 true).1

abbrev task_space : CapSpace
task_space = (Cap.create_object with_endpoint.space obj_task 0 0 null).1

-- An endpoint with token 2 ^ 32, and a task with the next one.
abbrev parties : Kernel
parties = record with_endpoint { space = (Cap.create task_space (2 ^ 32 + 1) 1 true).1 }

-- The task's ring has the token after that.
abbrev with_ring : Kernel
with_ring = (UserRing.create parties (2 ^ 32 + 1) 4 true).1

ring_slot : slot_for with_ring (2 ^ 32 + 1) (2 ^ 32 + 2) ≡ ok 0
unfolding slot_for Cap.check Cap.lookup Cap.validate id_index id_generation UserRing.create
    validate_count Cap.create Object.lookup Cap.create_object Object.create find_slot
    Endpoint.create make_id next_generation Rings.create Rings.lookup
ring_slot = refl

ring_found : Rings.lookup with_ring (2 ^ 32 + 2) right_read ≡ ok 0
unfolding slot_for Cap.check Cap.lookup Cap.validate id_index id_generation UserRing.create
    validate_count Cap.create Object.lookup Cap.create_object Object.create find_slot
    Endpoint.create make_id next_generation Rings.create Rings.lookup
ring_found = refl

abbrev bound : Kernel
bound = (bind with_ring (2 ^ 32 + 1) (2 ^ 32 + 2) (2 ^ 32)).1

ring_bound : bind with_ring (2 ^ 32 + 1) (2 ^ 32 + 2) (2 ^ 32) ≡ (ok tt, bound)
unfolding slot_for Cap.check Cap.lookup Cap.validate id_index id_generation UserRing.create
    validate_count Cap.create Object.lookup Cap.create_object Object.create find_slot
    Endpoint.create make_id next_generation Rings.create Rings.lookup bind Rings.bind_target
ring_bound = refl

abbrev user : UserSpace
user = record { flags_at = λ a. ok 3; byte_at = λ a. 0 }

nothing_polled : (poll user bound (2 ^ 32 + 1) (2 ^ 32 + 2) 0x100ff0 3 true).0 ≡ ok 0
unfolding slot_for Cap.check Cap.lookup Cap.validate id_index id_generation UserRing.create
    validate_count Cap.create Object.lookup Cap.create_object Object.create find_slot
    Endpoint.create make_id next_generation Rings.create Rings.lookup bind Rings.bind_target poll
    Rings.poll check_target validate_range checked_user_end copy_to poll_completions Rings.poll_from
nothing_polled = refl
