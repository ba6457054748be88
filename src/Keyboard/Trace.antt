-- ===== src/Keyboard/Trace.antt =====
-- Any sequence of polls and injected keys: the order of the events that come out.
use scdk.Base.{
  ℕ, ◌+◌, ◌^◌, ◌≤◌, ◌<◌, ◌≡◌, refl, sym, ◌∙◌, ap, subst, bit_and, true, ◌||◌, ltb, ◌==◌,
  if◌then◌else◌, inl, inr, arith, Bool-cases, List, [], ◌∷◌, length,
}
use scdk.Status.{Result, ok, err}
use scdk.Ring.Queue.{pop}
use scdk.Keyboard.{
  Keyboard, Event, enqueue_event, dequeue_event, handle_scancode, poll, polled, ready, init,
  inject_test_key, ticked, injected,
}
use scdk.Keyboard.Queue.{IsValid, pending, dequeue_refines}
use scdk.Keyboard.Stamped.{
  Within, Within-le, Stamped, Stepped, enqueue_event-Stepped, handle_scancode-Stepped,
}

-- What a call leaves that may give out an event: the event comes after `lo`, and the others after it.
abbrev Taken : ℕ → ℕ → Result Event × Keyboard → Type 0
Taken lo clock (ok e, k) = (lo < e.timestamp) × Stamped e.timestamp k × (k.clock ≤ clock)
Taken lo clock (err e, k) = Stamped lo k × (k.clock ≤ clock)

dequeue_event-clock :
    (k : Keyboard)
    → ((dequeue_event k).1.clock ≡ k.clock) × ((dequeue_event k).1.initialized ≡ k.initialized)
unfolding dequeue_event
dequeue_event-clock k = elim (Bool-cases (k.count == 0)) [
  | inl empty ↦ rw empty (refl, refl)
  | inr more ↦ rw more (refl, refl)
]

pop-Taken :
    (lo : ℕ) (k : Keyboard) (clock : ℕ) (r : Result Event) (k' : Keyboard) (q : List Event)
    → (r, pending k') ≡ pop q
    → IsValid k'
    → k'.initialized ≡ true
    → k'.clock ≡ clock
    → Within lo q clock
    → Taken lo clock (r, k')
unfolding pop
pop-Taken lo k clock r k' [] e v i c w =
    subst (λ x. Taken lo clock (x, k')) (sym (ap (λ z. z.0) e))
      (
        record {
          started = i;
          valid = v;
          within =
              subst (Within lo (pending k')) (sym c)
                (subst (λ es. Within lo es clock) (sym (ap (λ z. z.1) e)) w);
        },
        omega arith,
      )
pop-Taken lo k clock r k' (x ∷ q) e v i c (lt, w) =
    subst (λ y. Taken lo clock (y, k')) (sym (ap (λ z. z.0) e))
      (
        lt,
        record {
          started = i;
          valid = v;
          within =
              subst (Within x.timestamp (pending k')) (sym c)
                (subst (λ es. Within x.timestamp es clock) (sym (ap (λ z. z.1) e)) w);
        },
        omega arith,
      )

dequeue_event-Taken : (lo : ℕ) (k : Keyboard) → Stamped lo k → Taken lo k.clock (dequeue_event k)
dequeue_event-Taken lo k s =
    let (e, v) = dequeue_refines k s.valid in
    let (c, i) = dequeue_event-clock k in
    pop-Taken lo k k.clock (dequeue_event k).0 (dequeue_event k).1 (pending k) e v (i ∙ s.started) c
      s.within

Taken-later :
    (lo clock clock' : ℕ) (r : Result Event × Keyboard)
    → clock ≤ clock'
    → Taken lo clock r
    → Taken lo clock' r
Taken-later lo clock clock' (ok e, k) le (lt, s, c) = (lt, s, omega arith)
Taken-later lo clock clock' (err e, k) le (s, c) = (s, omega arith)

polled-Taken :
    (lo clock status scancode : ℕ) (r : Result Event × Keyboard)
    → clock + 1 < 2 ^ 64
    → Taken lo clock r
    → Taken lo (clock + 1) (polled status scancode r)
polled-Taken lo clock status scancode (ok e, k) small (lt, s, c) = (lt, s, omega arith)
polled-Taken lo clock status scancode (err e, k) small (s, c) =
    elim (Bool-cases (bit_and status 1 == 0)) [
      | inl quiet ↦ rw quiet (s, omega arith)
      | inr full ↦
          let (s', c') = handle_scancode-Stepped lo k scancode (omega arith) s in
          let k' = (handle_scancode k scancode).1 in
          rw full (
            Taken-later lo k'.clock (clock + 1) (dequeue_event k') (omega arith)
              (dequeue_event-Taken lo k' s'))
    ]

module _ (lo : ℕ) (k : Keyboard) (small : k.clock + 1 < 2 ^ 64) (s : Stamped lo k) where
  ready_started : ready k ≡ k
  ready_started = ap (λ b. if b then k else init k) s.started

  poll-Taken : (status scancode : ℕ) → Taken lo (k.clock + 1) (poll k status scancode true)
  unfolding poll
  poll-Taken status scancode =
      subst (λ j. Taken lo (k.clock + 1) (polled status scancode (dequeue_event j)))
        (sym ready_started)
        (polled-Taken lo k.clock status scancode (dequeue_event k) small
          (dequeue_event-Taken lo k s))

  inject_test_key-Stepped : (ascii : ℕ) → Stepped lo k.clock (inject_test_key k ascii).1
  unfolding inject_test_key
  inject_test_key-Stepped ascii = elim (Bool-cases (ascii == 0 || ltb 127 ascii)) [
    | inl bad ↦
        rw (bad, inject_test_key) (subst (Stepped lo k.clock) (sym ready_started) (s, omega arith))
    | inr good ↦
        rw (good, inject_test_key)
          (subst (λ j. Stepped lo k.clock (enqueue_event (ticked j) (injected j ascii)).1)
            (sym ready_started) (enqueue_event-Stepped lo k (injected k ascii) small refl s))
  ]

-- A call of the driver, with what the controller's two ports hold.
pub data Op : Type 0 where
  polls : ℕ → ℕ → Op
  injects : ℕ → Op

-- The events that the calls give out.
unfoldable pub run : Keyboard → List Op → List Event
run k [] = []
run k (polls status scancode ∷ ops) =
    let (r, k') = poll k status scancode true in
    elim r [ ok e ↦ e ∷ run k' ops | err e ↦ run k' ops ]
run k (injects ascii ∷ ops) = run (inject_test_key k ascii).1 ops

run-Taken :
    (lo : ℕ) (k : Keyboard) (r : Result Event × Keyboard) (hi : ℕ) (rest : Keyboard → List Event)
    → Taken lo hi r
    → ((lo' : ℕ) (k' : Keyboard) → k'.clock ≤ hi → Stamped lo' k' → Within lo' (rest k') (2 ^ 64))
    → Within lo (elim r.0 [ ok e ↦ e ∷ rest r.1 | err e ↦ rest r.1 ]) (2 ^ 64)
run-Taken lo k (ok e, k') hi rest (lt, s, c) next = (lt, next e.timestamp k' c s)
run-Taken lo k (err e, k') hi rest (s, c) next = next lo k' c s

-- Take a started keyboard whose queue is valid and holds events in the order of their times, all
-- after `lo`, and any sequence of polls, whatever the ports hold, and injected keys, too short to
-- wrap the 64-bit clock. Then the events that the polls return come in the order of their times,
-- each later than the one before it and than `lo`.
pub run-Within :
    (lo : ℕ) (k : Keyboard) (ops : List Op)
    → k.clock + length ops < 2 ^ 64
    → Stamped lo k
    → Within lo (run k ops) (2 ^ 64)
unfolding run
run-Within lo k [] few s = let le = Within-le lo (pending k) k.clock s.within in omega arith
run-Within lo k (polls status scancode ∷ ops) few s =
    run-Taken lo k (poll k status scancode true) (k.clock + 1) (λ k'. run k' ops)
      (poll-Taken lo k (omega arith) s status scancode)
      (λ lo' k' c s'. run-Within lo' k' ops (omega arith) s')
run-Within lo k (injects ascii ∷ ops) few s =
    let (s', c) = inject_test_key-Stepped lo k (omega arith) s ascii in
    run-Within lo (inject_test_key k ascii).1 ops (omega arith) s'
