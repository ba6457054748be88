-- ===== src/Cap/Stale.antt =====
-- Revocation: a revoked token fails at once, every other token stays as it was, and no history
-- shorter than a full turn of the 32-bit generations brings the revoked token back.
mod Frame
pub use Frame.*
use scdk.Base.{
  ℕ, zero, suc, ◌+◌, ◌-◌, ◌%◌, ◌^◌, ◌≤◌, ◌<◌, ◌≡◌, ◌≢◌, refl, sym, ◌∙◌, ◌⊎◌, inl, inr, Bool, true,
  false, not, ◌||◌, ◌&&◌, arith, leb, ◌==◌, if◌then◌else◌, subst, List, [], ◌∷◌, length, update,
}
use scdk.Status.{Result, ok, err, noent, ◌>>=◌, ◌>>◌, guard, Result-cases}
use scdk.Object
use scdk.Object.{Pointer}
use scdk.Object.Words.{
  id_index, id_generation, next_generation, next_generation-cycle, next_generation_bounds,
}
use scdk.Cap.{
  CapEntry, CapSpace, max_caps, is_live, validate, lookup, check, create, fill, retire, revoke,
  create_object,
}
use scdk.Cap.Laws.{IsValid, Held, lookup-Held}
use scdk.Cap.Preserve.{
  create-cases, revoke-cases, create-IsValid, revoke-IsValid, create_object-IsValid,
}

-- A call that changes the space.
pub data Op : Type 0 where
  make_object : ℕ → ℕ → ℕ → Pointer → Op
  mint : ℕ → ℕ → Op
  withdraw : ℕ → Op

unfoldable pub step : CapSpace → Op → CapSpace
step s (make_object type core flags payload) = (create_object s type core flags payload).1
step s (mint id rights) = (create s id rights true).1
step s (withdraw cap) = (revoke s cap).1

unfoldable pub run : CapSpace → List Op → CapSpace
unfolding step
run s [] = s
run s (op ∷ ops) = run (step s op) ops

pub step-IsValid : (s : CapSpace) (op : Op) → IsValid s → IsValid (step s op)
unfolding step
step-IsValid s (make_object type core flags p) v = create_object-IsValid s type core flags p v
step-IsValid s (mint id rights) v = create-IsValid s id rights true v
step-IsValid s (withdraw cap) v = revoke-IsValid s cap v

-- No history of calls breaks the invariant.
pub run-IsValid : (s : CapSpace) (ops : List Op) → IsValid s → IsValid (run s ops)
unfolding run
run-IsValid s [] v = v
run-IsValid s (op ∷ ops) v = run-IsValid (step s op) ops (step-IsValid s op v)

-- A generation stays, or moves on by one.
abbrev Moves : CapSpace → ℕ → CapSpace → Type 0
Moves s i t =
    (t.generations i ≡ s.generations i) ⊎ (t.generations i ≡ next_generation (s.generations i))

step-Moves : (s : CapSpace) (op : Op) (i : ℕ) → Moves s i (step s op)
unfolding step create_object fill retire
step-Moves s (make_object type core flags p) i = inl refl
step-Moves s (mint id rights) i =
    create-cases (Moves s i) s id rights true (inl refl) λ j o lt free found. ground arith
step-Moves s (withdraw cap) i = revoke-cases (Moves s i) s cap (inl refl) λ e held. ground arith

-- `now` is `g` moved on at least once and at most `n` times.
record Aged (g n now : ℕ) : Type 0 where
  turns : ℕ
  positive : 0 < turns
  few : turns ≤ n
  reached : now ≡ (g - 1 + turns) % (2 ^ 32 - 1) + 1

Aged-next : {g n now : ℕ} → 0 < g → Aged g n now → Aged g (n + 1) (next_generation now)
Aged-next {g} {n} {now} pos a = record {
  turns = a.turns + 1;
  positive = omega arith;
  few = omega arith;
  reached = omega (arith, next_generation-cycle now (omega arith) (omega arith), a.reached);
}

Aged-step :
    {g n : ℕ} (s : CapSpace) (op : Op) (i : ℕ)
    → 0 < g
    → Aged g n (s.generations i)
    → Aged g (n + 1) ((step s op).generations i)
Aged-step {g} {n} s op i pos a = elim (step-Moves s op i) [
  | inl same ↦ record {
    turns = a.turns;
    positive = a.positive;
    few = omega (arith, a.few);
    reached = same ∙ a.reached;
  }
  | inr next ↦ subst (Aged g (n + 1)) (sym next) (Aged-next pos a)
]

Aged-run :
    {g : ℕ} (n : ℕ) (s : CapSpace) (ops : List Op) (i : ℕ)
    → 0 < g
    → Aged g n (s.generations i)
    → Aged g (n + length ops) ((run s ops).generations i)
unfolding run
Aged-run {g} n s [] i pos a = subst (λ m. Aged g m (s.generations i)) (omega arith) a
Aged-run {g} n s (op ∷ ops) i pos a =
    subst (λ m. Aged g m ((run (step s op) ops).generations i)) (omega arith)
      (Aged-run (n + 1) (step s op) ops i pos (Aged-step s op i pos a))

Aged-ne : {g n now : ℕ} → 0 < g → g < 2 ^ 32 → n < 2 ^ 32 - 1 → Aged g n now → now ≢ g
Aged-ne pos small few a = omega (arith, a.positive, a.few, a.reached)

-- The generation of a token that works is at least 1 and fits 32 bits.
Held-generation :
    (s : CapSpace) (cap : ℕ) {e : CapEntry}
    → IsValid s
    → Held s cap e
    → (0 < id_generation cap) × (id_generation cap < 2 ^ 32)
Held-generation s cap {e} v held =
    let live = held.live in
    let pos = v.started (id_index cap) (subst (λ x. is_live x ≡ true) held.entry held.live) in
    (omega (arith, held.generation), omega (arith, held.generation, v.small (id_index cap)))

revoke-Aged :
    (s : CapSpace) (cap : ℕ) {e : CapEntry}
    → IsValid s
    → lookup s cap ≡ ok e
    → Aged (id_generation cap) 1 ((revoke s cap).1.generations (id_index cap))
unfolding revoke retire
revoke-Aged s cap {e} v h =
    let held = lookup-Held s cap h in
    let small = Held-generation s cap v held in
    record {
      turns = 1;
      positive = omega arith;
      few = omega arith;
      reached =
          rw (h, held.generation)
            (ground (arith, next_generation-cycle (id_generation cap) small.0 small.1));
    }

-- A revoked token fails at once, and after any history of fewer than 2 ^ 32 - 2 calls, whatever
-- capabilities and objects they create and revoke.
pub lookup-run-revoke :
    (s : CapSpace) (cap : ℕ) (ops : List Op) {e : CapEntry}
    → IsValid s
    → lookup s cap ≡ ok e
    → length ops < 2 ^ 32 - 2
    → lookup (run (revoke s cap).1 ops) cap ≡ err noent
lookup-run-revoke s cap ops {e} v h few =
    let held = lookup-Held s cap h in
    let small = Held-generation s cap v held in
    let aged = Aged-run 1 (revoke s cap).1 ops (id_index cap) small.0 (revoke-Aged s cap v h) in
    lookup_stale (run (revoke s cap).1 ops) cap (lookup-cap-ne-zero s cap h)
      (Aged-ne small.0 small.1 (omega arith) aged)

-- So no check passes either, with any rights and for any type.
pub check-run-revoke :
    (s : CapSpace) (cap required expected : ℕ) (ops : List Op) {e : CapEntry}
    → IsValid s
    → lookup s cap ≡ ok e
    → length ops < 2 ^ 32 - 2
    → required ≢ 0
    → check (run (revoke s cap).1 ops) cap required expected ≡ err noent
unfolding check
check-run-revoke s cap required expected ops v h few pos =
    ground (arith, lookup-run-revoke s cap ops v h few)

-- The call revokes no token of entry `i`.
abbrev pub Spares : ℕ → Op → Type 0
Spares i (make_object type core flags payload) = Unit {0}
Spares i (mint id rights) = Unit {0}
Spares i (withdraw cap) = id_index cap ≢ i

abbrev pub AllSpare : ℕ → List Op → Type 0
AllSpare i [] = Unit {0}
AllSpare i (op ∷ ops) = Spares i op × AllSpare i ops

lookup-step_spared :
    (s : CapSpace) (cap : ℕ) (op : Op) {e : CapEntry}
    → Spares (id_index cap) op
    → lookup s cap ≡ ok e
    → lookup (step s op) cap ≡ ok e
unfolding step
lookup-step_spared s cap (make_object type core flags p) sp h =
    lookup-create_object_old s type core flags p cap h
lookup-step_spared s cap (mint id rights) sp h = lookup-create_old s id rights true cap h
lookup-step_spared s cap (withdraw c) sp h = lookup-revoke_other s c cap (λ e. sp (sym e)) ∙ h

-- A working token keeps its entry through every history that revokes no token of that entry.
lookup-run_spared :
    (s : CapSpace) (cap : ℕ) (ops : List Op) {e : CapEntry}
    → AllSpare (id_index cap) ops
    → lookup s cap ≡ ok e
    → lookup (run s ops) cap ≡ ok e
unfolding run
lookup-run_spared s cap [] sp h = h
lookup-run_spared s cap (op ∷ ops) sp h =
    lookup-run_spared (step s op) cap ops sp.1 (lookup-step_spared s cap op sp.0 h)
