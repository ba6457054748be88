-- ===== src/Tests/Caps.antt =====
-- Objects and capabilities at concrete inputs.
use scdk.Base.{
  ℕ, ◌+◌, ◌^◌, ◌≡◌, ◌≢◌, refl, true, if◌then◌else◌, ◌==◌, ◌&&◌, ◌||◌, find_slot, arith, List, [],
  ◌∷◌,
}
use scdk.Status.{ok, err, noent, perm}
use scdk.Object
use scdk.Object.{null, obj_task, obj_none, Object}
use scdk.Cap
use scdk.Object.Words.{make_id, id_index, id_generation, next_generation}
use scdk.Cap.{has_rights, CapSpace, CapEntry, empty_space, right_read, right_write}
use scdk.Cap.Laws.{IsValid, empty_space-IsValid}
use scdk.Cap.Preserve.{create-IsValid, create_object-IsValid}
use scdk.Cap.Rights
use scdk.Cap.Rights.{check-create, describe}
use scdk.Cap.Stale.{Op, make_object, mint, withdraw, run, run-IsValid, lookup-run-revoke}

-- One task, named by the first id, and one token for it.
abbrev pub task_id : ℕ
task_id = 2 ^ 32

abbrev pub with_task : CapSpace
with_task = (Cap.create_object empty_space obj_task 0 0 null).1

abbrev pub with_token : CapSpace
with_token = (Cap.create with_task task_id 3 true).1

abbrev task : Object
task = record {
  id = task_id;
  type = obj_task;
  generation = 1;
  owner_core = 0;
  flags = 0;
  payload = null;
}

abbrev task_entry : CapEntry
task_entry = describe task 3

with_task-IsValid : IsValid with_task
with_task-IsValid = create_object-IsValid empty_space obj_task 0 0 null empty_space-IsValid

with_token-IsValid : IsValid with_token
with_token-IsValid = create-IsValid with_task task_id 3 true with_task-IsValid

task_found : Object.lookup with_task.objects task_id true ≡ ok task
unfolding Object.lookup id_index id_generation Cap.create_object Object.create find_slot
    next_generation make_id
task_found = refl

token_made : Cap.create with_task task_id 3 true ≡ (ok (2 ^ 32), with_token)
unfolding Cap.create Object.lookup id_index id_generation Cap.create_object Object.create find_slot
    next_generation make_id
token_made = refl

token_found : Cap.lookup with_token (2 ^ 32) ≡ ok task_entry
token_found = Rights.lookup-create with_task task_id 3 true task task_found token_made

-- The table's first place goes to another task, then a second token is made and revoked.
abbrev history : List Op
history = make_object obj_task 0 0 null ∷ mint (2 ^ 32 + 1) 1 ∷ withdraw (2 ^ 32 + 1) ∷ []

check-create_example : Cap.check with_token (2 ^ 32) 2 obj_task ≡ (
    if (obj_task == obj_none || obj_task == obj_task) && has_rights 3 2
    then ok task_entry
    else err perm)
check-create_example =
    check-create with_task task_id 3 2 obj_task true task task_found token_made (omega arith)

check_all : Cap.check with_token (2 ^ 32) 3 obj_task ≡ ok task_entry
unfolding Cap.check Cap.lookup Cap.validate id_index id_generation Cap.create Object.lookup
    Cap.create_object Object.create find_slot next_generation make_id
check_all = refl

differs : id_index (2 ^ 32 + 1) ≢ id_index (2 ^ 32)
unfolding id_index
differs = omega arith

run-IsValid_example : IsValid (run with_token history)
run-IsValid_example = run-IsValid with_token history with_token-IsValid

lookup-run-revoke_example :
    Cap.lookup (run (Cap.revoke with_token (2 ^ 32)).1 history) (2 ^ 32) ≡ err noent
lookup-run-revoke_example =
    lookup-run-revoke with_token (2 ^ 32) history with_token-IsValid token_found (omega arith)
