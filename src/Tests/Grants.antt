-- ===== src/Tests/Grants.antt =====
-- Grants and user grants at concrete inputs.
use scdk.Base.{
  ℕ, ◌+◌, ◌-◌, ◌%◌, ◌^◌, ◌≡◌, refl, ap, true, false, find_slot, leb, if◌then◌else◌, arith, List, [],
  ◌∷◌, length,
}
use scdk.Status.{ok, err, noent, bounds}
use scdk.Object
use scdk.Object.{obj_task, null}
use scdk.Object.Words.{make_id, id_index, id_generation, next_generation}
use scdk.Cap
use scdk.Cap.{CapSpace, right_read}
use scdk.Cap.Laws.{IsValid, empty_space-IsValid}
use scdk.Cap.Preserve.{create_object-IsValid}
use scdk.Cap.Preserve
use scdk.Cap.Growth.{Grows-IsValid}
use scdk.Cap.Stale
use scdk.Cap.Stale.{Op, mint, withdraw}
use scdk.Kernel.{Kernel, UserGrantSlot, boot}
use scdk.Endpoint
use scdk.Endpoint.Create.{create-IsValid}
use scdk.Grant as Grants
use scdk.Grant.{lookup}
use scdk.Grant.Create.{resolve-create}
use scdk.UserSpace.{UserSpace, validate_range, checked_user_end, copy_from, read_bytes}
use scdk.UserGrant
use scdk.UserGrant.{validate_access, copy_from_grant}
use scdk.UserGrant.Access.{Allowed, copy_from_grant-Allowed, validate_access_revoked}
use scdk.UserGrant.Create.{IsBacked}
use scdk.UserGrant.Backing.{create-IsBacked}
use scdk.UserGrant.Powers.{installed, validate_access-create, revoke-create}
use scdk.UserGrant.Confusion.{resolve_user_grant}

-- A kernel grant of 100 bytes, for reading.
abbrev with_grant : Kernel
with_grant = (Grants.create boot 5000 100 1 0 true).1

grant_made : Grants.create boot 5000 100 1 0 true ≡ (ok (2 ^ 32), with_grant)
unfolding Grants.create find_slot Cap.create_object Object.create Cap.create Object.lookup make_id
    next_generation id_index id_generation
grant_made = refl

resolve-create_example :
    Grants.resolve with_grant (2 ^ 32) 1 90 10 true
    ≡ (if leb (90 + 10) 100 then ok ((5000 + 90) % 2 ^ 64) else err bounds)
resolve-create_example =
    resolve-create boot 5000 100 1 0 1 90 10 true grant_made (omega arith) refl refl (omega arith)

grant_resolved : Grants.resolve with_grant (2 ^ 32) 1 90 10 true ≡ ok 5090
grant_resolved =
    resolve-create boot 5000 100 1 0 1 90 10 true grant_made (omega arith) refl refl (omega arith)

-- Every page is mapped for the user, and a byte is its address's low byte.
abbrev user : UserSpace
user = record { flags_at = λ a. ok 3; byte_at = λ a. a % 256 }

-- An endpoint with token 2 ^ 32, and a task with the next one.
abbrev with_endpoint : Kernel
with_endpoint = (Endpoint.create boot 0 1 7 true).1

abbrev task_space : CapSpace
task_space = (Cap.create_object with_endpoint.space obj_task 0 0 null).1

abbrev parties : Kernel
parties = record with_endpoint { space = (Cap.create task_space (2 ^ 32 + 1) 1 true).1 }

parties-IsBacked : IsBacked parties
unfolding Endpoint.create find_slot Cap.create_object Object.create Cap.create Object.lookup make_id
    next_generation id_index id_generation
parties-IsBacked i used = absurd (used refl)

-- 32 bytes of the task's memory, granted for reading.
abbrev shared : Kernel
shared = (UserGrant.create user parties (2 ^ 32 + 1) 0x100ff0 32 1 (2 ^ 32) true).1

shared_made :
    UserGrant.create user parties (2 ^ 32 + 1) 0x100ff0 32 1 (2 ^ 32) true
    ≡ (ok (2 ^ 32 + 2), shared)
unfolding UserGrant.create Cap.check Cap.lookup Cap.validate id_index id_generation Cap.create
    Object.lookup Cap.create_object Object.create find_slot Endpoint.create make_id next_generation
    validate_range scdk.UserSpace.checked_user_end
shared_made = refl

validate_access-create_example :
    validate_access shared (2 ^ 32 + 2) 30 2 1 ≡ (if leb (30 + 2) 32 then ok tt else err bounds)
validate_access-create_example =
    validate_access-create user parties (2 ^ 32 + 1) 0x100ff0 32 1 (2 ^ 32) true parties-IsBacked
      shared_made 1 30 2 (omega arith) refl refl (omega arith)

access_passes : validate_access shared (2 ^ 32 + 2) 30 2 1 ≡ ok tt
access_passes =
    validate_access-create user parties (2 ^ 32 + 1) 0x100ff0 32 1 (2 ^ 32) true parties-IsBacked
      shared_made 1 30 2 (omega arith) refl refl (omega arith)

abbrev bytes : List ℕ
bytes = 0 ∷ 1 ∷ []

copied : copy_from_grant user shared (2 ^ 32) (2 ^ 32 + 2) 16 true 2 ≡ ok bytes
unfolding validate_range checked_user_end copy_from copy_from_grant UserGrant.lookup Cap.check
    Cap.lookup Cap.validate id_index id_generation UserGrant.create Cap.create Object.lookup
    Cap.create_object Object.create find_slot Endpoint.create make_id next_generation
    UserGrant.check_binding UserGrant.check_range UserGrant.check_request
    UserGrant.checked_user_range
copied = refl

copy_from_grant-Allowed_example :
    (slot : UserGrantSlot) × Allowed shared (2 ^ 32 + 2) 16 2 right_read slot
    × (slot.target_endpoint ≡ 2 ^ 32)
    × (validate_range user ((slot.user_base + 16) % 2 ^ 64) 2 false ≡ ok tt)
    × (bytes ≡ read_bytes user ((slot.user_base + 16) % 2 ^ 64) 2)
    × (length bytes ≡ 2)
copy_from_grant-Allowed_example =
    copy_from_grant-Allowed user shared (2 ^ 32) (2 ^ 32 + 2) 16 2 true copied

abbrev closed : Kernel
closed = (UserGrant.revoke shared (2 ^ 32 + 2)).1

abbrev ended : Kernel
ended = record closed {
  space = Stale.run closed.space (withdraw (2 ^ 32 + 1) ∷ mint (2 ^ 32 + 2) 1 ∷ []);
}

parties-IsValid : IsValid parties.space
parties-IsValid = Preserve.create-IsValid task_space (2 ^ 32 + 1) 1 true (
    create_object-IsValid with_endpoint.space obj_task 0 0 null
      (create-IsValid boot 0 1 7 true empty_space-IsValid))

shared-IsValid : IsValid shared.space
shared-IsValid =
    Grows-IsValid
      (installed user parties (2 ^ 32 + 1) 0x100ff0 32 1 (2 ^ 32) true parties-IsBacked
        shared_made).grows
      parties-IsValid

grant_closed : UserGrant.revoke shared (2 ^ 32 + 2) ≡ (ok tt, closed)
grant_closed =
    ap (λ s. (s, closed))
      (revoke-create user parties (2 ^ 32 + 1) 0x100ff0 32 1 (2 ^ 32) true parties-IsBacked
        shared_made)

validate_access_revoked_example : validate_access ended (2 ^ 32 + 2) 30 2 1 ≡ err noent
validate_access_revoked_example =
    validate_access_revoked shared closed ended (2 ^ 32 + 2) 30 2 1
      (withdraw (2 ^ 32 + 1) ∷ mint (2 ^ 32 + 2) 1 ∷ []) shared-IsValid grant_closed (omega arith)
      refl (omega arith)

shared-IsBacked : IsBacked shared
shared-IsBacked =
    create-IsBacked user parties (2 ^ 32 + 1) 0x100ff0 32 1 (2 ^ 32) true parties-IsBacked

resolve_user_grant_example :
    Grants.resolve shared (2 ^ 32 + 2) 1 0x100ff8 4 true
    ≡ ok ((2 ^ 32 + (0x100ff8 - 0x100ff0)) % 2 ^ 64)
resolve_user_grant_example =
    resolve_user_grant user parties (2 ^ 32 + 1) 0x100ff0 32 1 (2 ^ 32) true 1 0x100ff8 4
      parties-IsBacked shared_made (omega arith) refl refl (omega arith) (omega arith) (omega arith)
