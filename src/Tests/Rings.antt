-- ===== src/Tests/Rings.antt =====
-- Rings at concrete inputs.
use scdk.Base.{◌+◌, ◌-◌, ◌*◌, ◌^◌, ◌≡◌, refl, true, find_slot, arith, List, [], ◌∷◌}
use scdk.Status.{ok}
use scdk.Object
use scdk.Object.{obj_endpoint, obj_ring, element, ring_table}
use scdk.Object.Words.{make_id, id_index, id_generation, next_generation}
use scdk.Cap
use scdk.Cap.{CapEntry, right_read}
use scdk.Cap.Stale
use scdk.Cap.Stale.{Op, make_object, mint}
use scdk.Kernel.{Kernel, Ring, RingDesc, boot, empty_ring, empty_desc, empty_completion}
use scdk.Endpoint
use scdk.Ring as Rings
use scdk.Ring.{fresh_ring, queue_count, submit_to, consume_from, lookup, bind_target, bound_target}
use scdk.Ring.Refine.{IsValid, submissions, completions}
use scdk.Ring.Trace
use scdk.Ring.Trace.{submits, consumes, completes, polls, run, run_spec, run_refines}
use scdk.Ring.Wrap.{submit_overwrites}

abbrev write_desc : RingDesc
write_desc = record empty_desc { op = 1; length = 12 }

-- An endpoint with token 2 ^ 32, and a ring of four entries with the next one, not bound.
abbrev with_endpoint : Kernel
with_endpoint = (Endpoint.create boot 0 1 7 true).1

abbrev with_ring : Kernel
with_ring = (Rings.create with_endpoint 0 4 0 true).1

ring_made : Rings.create with_endpoint 0 4 0 true ≡ (ok (2 ^ 32 + 1), with_ring)
unfolding Rings.create find_slot Endpoint.create Cap.create_object Object.create Cap.create
    Object.lookup make_id next_generation id_index id_generation
ring_made = refl

abbrev bound : Kernel
bound = (bind_target with_ring (2 ^ 32 + 1) (2 ^ 32)).1

ring_bound : bind_target with_ring (2 ^ 32 + 1) (2 ^ 32) ≡ (ok tt, bound)
unfolding bind_target Cap.check Cap.lookup Cap.validate id_index id_generation Rings.create
    find_slot Endpoint.create Cap.create_object Object.create Cap.create Object.lookup make_id
    next_generation lookup
ring_bound = refl

ring_found : lookup with_ring (2 ^ 32 + 1) right_read ≡ ok 0
unfolding lookup Cap.check Cap.lookup Cap.validate id_index id_generation Rings.create find_slot
    Endpoint.create Cap.create_object Object.create Cap.create Object.lookup make_id next_generation
ring_found = refl

abbrev endpoint_entry : CapEntry
endpoint_entry = record {
  object_id = 2 ^ 32;
  generation = 1;
  object_type = obj_endpoint;
  revoked = 0;
  rights = 80;
}

endpoint_found : Cap.lookup with_endpoint.space (2 ^ 32) ≡ ok endpoint_entry
unfolding Cap.lookup Cap.validate id_index id_generation Endpoint.create find_slot Cap.create_object
    Object.create Cap.create Object.lookup make_id next_generation
endpoint_found = refl

-- After the endpoint's token is revoked, a ring bound to it gets an object and a token.
abbrev later : List Op
later = make_object obj_ring 0 0 (element ring_table 0) ∷ mint (2 ^ 32 + 1) 67 ∷ []

abbrev orphaned : Kernel
orphaned = record with_endpoint {
  space = Stale.run (Cap.revoke with_endpoint.space (2 ^ 32)).1 later;
  rings = λ i. record { object_id = 2 ^ 32 + 1; ring = fresh_ring empty_ring 4 (2 ^ 32) };
}

orphan_found : lookup orphaned (3 * 2 ^ 32) right_read ≡ ok 0
unfolding lookup Cap.check Cap.lookup Cap.validate id_index id_generation Stale.run Cap.create
    Object.lookup Cap.create_object Object.create find_slot Cap.revoke Endpoint.create make_id
    next_generation
orphan_found = refl

-- A ring of two entries whose counters wrap within the run.
abbrev late_ring : Ring
late_ring = record empty_ring { entries = 2; submit_head = 2 ^ 32 - 1; submit_tail = 2 ^ 32 - 1 }

late_ring-IsValid : IsValid late_ring
late_ring-IsValid = record {
  some_entries = omega arith;
  few_entries = omega arith;
  divides = omega arith;
  submits = record { head_small = omega arith; tail_small = omega arith; fits = omega arith };
  completes = record { head_small = omega arith; tail_small = omega arith; fits = omega arith };
}

abbrev traffic : List Trace.Op
traffic =
    submits write_desc
    ∷ submits empty_desc
    ∷ submits write_desc
    ∷ consumes
    ∷ completes empty_completion
    ∷ polls
    ∷ polls
    ∷ []

run_refines_example :
    run late_ring traffic ≡ run_spec 2 (submissions late_ring) (completions late_ring) traffic
run_refines_example = run_refines late_ring traffic late_ring-IsValid

-- A ring of three entries, one step before the counter wraps.
abbrev odd_ring : Ring
odd_ring = record empty_ring { entries = 3; submit_head = 2 ^ 32 - 1; submit_tail = 0 }

submit_overwrites_example :
    (queue_count odd_ring.submit_head odd_ring.submit_tail ≡ 1)
    × ((submit_to odd_ring write_desc).0 ≡ ok tt)
    × ((consume_from (submit_to odd_ring write_desc).1).0 ≡ ok write_desc)
submit_overwrites_example = submit_overwrites odd_ring write_desc (omega arith) refl refl refl
