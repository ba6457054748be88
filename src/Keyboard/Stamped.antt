-- ===== src/Keyboard/Stamped.antt =====
-- Keyboards whose events wait in the order of their times, and the steps that put one in.
use scdk.Base.{
  ℕ, ◌+◌, ◌^◌, ◌≤◌, ◌<◌, ◌≡◌, refl, sym, ◌∙◌, ap, subst, bit_and, Bool, true, false, not, ◌&&◌,
  ◌||◌, leb, ◌==◌, if◌then◌else◌, inl, inr, arith, Bool-cases, List, [], ◌∷◌, ◌++◌, length,
}
use scdk.Ring.Queue.{push}
use scdk.Keyboard.{
  Keyboard, Event, enqueue_event, handle_code, handle_key, handle_scancode, ticked, tick, key_event,
  queue_size, caps_lock_key,
}
use scdk.Keyboard.Keys.{KeyMapEntry, table_entry, scancode_set1, extended_scancode_set1}
use scdk.Keyboard.Queue.{IsValid, pending, enqueue_refines}

-- The times of the events rise from one after `lo` to at most `hi`.
abbrev pub Within : ℕ → List Event → ℕ → Type 0
Within lo [] hi = lo ≤ hi
Within lo (e ∷ es) hi = (lo < e.timestamp) × Within e.timestamp es hi

pub Within-le : (lo : ℕ) (es : List Event) (hi : ℕ) → Within lo es hi → lo ≤ hi
Within-le lo [] hi w = w
Within-le lo (e ∷ es) hi (lt, w) = let r = Within-le e.timestamp es hi w in omega arith

Within-later :
    (lo : ℕ) (es : List Event) (hi hi' : ℕ) → hi ≤ hi' → Within lo es hi → Within lo es hi'
Within-later lo [] hi hi' le w = omega arith
Within-later lo (e ∷ es) hi hi' le (lt, w) = (lt, Within-later e.timestamp es hi hi' le w)

Within-append :
    (lo : ℕ) (es : List Event) (hi : ℕ) (e : Event)
    → hi < e.timestamp
    → Within lo es hi
    → Within lo (es ++ (e ∷ [])) e.timestamp
Within-append lo [] hi e lt w = (omega arith, omega arith)
Within-append lo (x ∷ es) hi e lt (first, w) = (first, Within-append x.timestamp es hi e lt w)

-- A started keyboard whose events came after `lo`, in order.
pub record Stamped (lo : ℕ) (k : Keyboard) : Type 0 where
  pub started : k.initialized ≡ true
  pub valid : IsValid k
  pub within : Within lo (pending k) k.clock

-- The keyboard's keys are not in the way.
module _ (lo : ℕ) (k : Keyboard) (left right caps extended : Bool) where
  abbrev with_keys : Keyboard
  with_keys = record k {
    left_shift_down = left;
    right_shift_down = right;
    caps_lock_on = caps;
    extended_pending = extended;
  }

  with_keys-Stamped : Stamped lo k → Stamped lo with_keys
  unfolding pending
  with_keys-Stamped s = record {
    started = s.started;
    valid = record {
      head_small = s.valid.head_small;
      fits = s.valid.fits;
      tail_right = s.valid.tail_right;
    };
    within = s.within;
  }

-- The keyboard after a step that makes one event at most.
abbrev pub Stepped : ℕ → ℕ → Keyboard → Type 0
Stepped lo clock k = Stamped lo k × (k.clock ≤ clock + 1)

push-Within :
    (lo : ℕ) (q : List Event) (hi : ℕ) (e : Event)
    → hi < e.timestamp
    → Within lo q hi
    → Within lo (push queue_size q e).1 e.timestamp
unfolding push
push-Within lo q hi e lt w = elim (Bool-cases (leb queue_size (length q))) [
  | inl full ↦ rw (full, push) (Within-later lo q hi e.timestamp (omega arith) w)
  | inr room ↦ rw (room, push) (Within-append lo q hi e lt w)
]

enqueue_event-clock :
    (k : Keyboard) (e : Event)
    → ((enqueue_event k e).1.clock ≡ k.clock) × ((enqueue_event k e).1.initialized ≡ k.initialized)
unfolding enqueue_event
enqueue_event-clock k e = elim (Bool-cases (leb queue_size k.count)) [
  | inl full ↦ rw full (refl, refl)
  | inr room ↦ rw room (refl, refl)
]

-- Putting in the event of the next tick.
pub enqueue_event-Stepped :
    (lo : ℕ) (k : Keyboard) (e : Event)
    → k.clock + 1 < 2 ^ 64
    → e.timestamp ≡ tick k
    → Stamped lo k
    → Stepped lo k.clock (enqueue_event (ticked k) e).1
unfolding pending
enqueue_event-Stepped lo k e small stamp s =
    let e_clock : e.timestamp ≡ k.clock + 1 = omega arith in
    let (q, v) = enqueue_refines (ticked k) e (record {
      head_small = s.valid.head_small;
      fits = s.valid.fits;
      tail_right = s.valid.tail_right;
    }) in
    let (c, i) = enqueue_event-clock (ticked k) e in
    (
      record {
        started = i ∙ s.started;
        valid = v;
        within = subst (Within lo (pending (enqueue_event (ticked k) e).1)) (stamp ∙ sym c) (
            subst (λ es. Within lo es e.timestamp) (sym (ap (λ r. r.1) q))
              (push-Within lo (pending k) k.clock e (omega arith) s.within));
      },
      omega (arith, c),
    )

module _ (lo : ℕ) (k : Keyboard) (small : k.clock + 1 < 2 ^ 64) where
  handle_key-Stepped :
      (e : KeyMapEntry) (released : Bool)
      → Stamped lo k
      → Stepped lo k.clock (handle_key k e released).1
  handle_key-Stepped e released s = elim (Bool-cases (e.keycode == caps_lock_key && not released)) [
    | inl caps ↦
        let k' = record k { caps_lock_on = not k.caps_lock_on } in
        rw caps (
          enqueue_event-Stepped lo k' (key_event k' e released) small refl (
            with_keys-Stamped lo k k.left_shift_down k.right_shift_down (not k.caps_lock_on)
              k.extended_pending s))
    | inr other ↦ rw other (enqueue_event-Stepped lo k (key_event k e released) small refl s)
  ]

  handle_code-Stepped :
      (extended : Bool) (code : ℕ) (released : Bool)
      → Stamped lo k
      → Stepped lo k.clock (handle_code k extended code released).1
  unfolding handle_code
  handle_code-Stepped extended code released s =
      let e =
        if extended
        then table_entry extended_scancode_set1 code
        else table_entry scancode_set1 code in
      elim (Bool-cases (not extended && code == 42)) [
        | inl left ↦
            rw (left, handle_code)
              (
                with_keys-Stamped lo k (not released) k.right_shift_down k.caps_lock_on
                    k.extended_pending s,
                omega arith,
              )
        | inr l ↦ elim (Bool-cases (not extended && code == 54)) [
          | inl right ↦
              rw (l, right, handle_code)
                (
                  with_keys-Stamped lo k k.left_shift_down (not released) k.caps_lock_on
                      k.extended_pending s,
                  omega arith,
                )
          | inr r ↦ elim (Bool-cases (leb 128 code || e.keycode == 0)) [
            | inl none_there ↦ rw (l, r, none_there, handle_code) (s, omega arith)
            | inr there ↦ rw (l, r, there, handle_code) (handle_key-Stepped e released s)
          ]
        ]
      ]

pub handle_scancode-Stepped :
    (lo : ℕ) (k : Keyboard) (scancode : ℕ)
    → k.clock + 1 < 2 ^ 64
    → Stamped lo k
    → Stepped lo k.clock (handle_scancode k scancode).1
unfolding handle_scancode
handle_scancode-Stepped lo k scancode small s = elim (Bool-cases (scancode == 224)) [
  | inl prefix ↦
      rw (prefix, handle_scancode)
        (
          with_keys-Stamped lo k k.left_shift_down k.right_shift_down k.caps_lock_on true s,
          omega arith,
        )
  | inr code ↦
      rw (code, handle_scancode)
        (handle_code-Stepped lo (record k { extended_pending = false }) small k.extended_pending
          (bit_and scancode 127) (not (bit_and scancode 128 == 0))
          (with_keys-Stamped lo k k.left_shift_down k.right_shift_down k.caps_lock_on false s))
]
