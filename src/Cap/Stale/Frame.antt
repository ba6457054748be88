-- ===== src/Cap/Stale/Frame.antt =====
-- Which tokens one call of capability.c touches.
use scdk.Base.{ℕ, ◌≡◌, ◌≢◌, refl, Bool, true, arith}
use scdk.Status.{ok, err, noent}
use scdk.Object.{Pointer}
use scdk.Object.Laws
use scdk.Object.Words.{id_index, id_generation}
use scdk.Cap.{CapEntry, CapSpace, validate, lookup, create, fill, retire, revoke, create_object}
use scdk.Cap.Laws.{lookup-Held}
use scdk.Cap.Preserve.{create-cases, revoke-cases}

-- Creating a capability leaves every working token working, with the same entry.
pub lookup-create_old :
    (s : CapSpace) (id rights : ℕ) (out : Bool) (cap : ℕ) {e : CapEntry}
    → lookup s cap ≡ ok e
    → lookup (create s id rights out).1 cap ≡ ok e
unfolding lookup fill validate
lookup-create_old s id rights out cap {e} h =
    create-cases (λ t. lookup t cap ≡ ok e) s id rights out h λ i o lt free found. ground arith

-- So does creating an object.
pub lookup-create_object_old :
    (s : CapSpace) (type core flags : ℕ) (p : Pointer) (cap : ℕ) {e : CapEntry}
    → lookup s cap ≡ ok e
    → lookup (create_object s type core flags p).1 cap ≡ ok e
unfolding create_object lookup validate
lookup-create_object_old s type core flags p cap {e} h =
    let held = lookup-Held s cap h in
    ground (arith, Laws.lookup-create_old s.objects type core flags p true e.object_id held.found)

-- Revoking one token changes nothing for the tokens of other entries.
pub lookup-revoke_other :
    (s : CapSpace) (cap other : ℕ)
    → id_index other ≢ id_index cap
    → lookup (revoke s cap).1 other ≡ lookup s other
unfolding lookup retire validate
lookup-revoke_other s cap other ne =
    revoke-cases (λ t. lookup t other ≡ lookup s other) s cap refl λ e held. ground arith

-- A generation that has moved on makes the token stale.
pub lookup_stale :
    (s : CapSpace) (cap : ℕ)
    → cap ≢ 0
    → s.generations (id_index cap) ≢ id_generation cap
    → lookup s cap ≡ err noent
unfolding lookup validate
lookup_stale s cap h ne = ground arith

pub lookup-cap-ne-zero : (s : CapSpace) (cap : ℕ) {e : CapEntry} → lookup s cap ≡ ok e → cap ≢ 0
unfolding lookup validate
lookup-cap-ne-zero s cap h = ground arith
