-- ===== src/Keyboard/Modifiers.antt =====
-- The modifier keys, against the history of the scancodes.
use scdk.Base.{
  ℕ, zero, suc, ◌%◌, ◌<◌, ◌≡◌, refl, sym, ◌∙◌, ap, bit_and, Bool, true, false, not, ◌&&◌, ltb, leb,
  ◌==◌, if◌then◌else◌, inl, inr, arith, Bool-cases,
}
use scdk.Keyboard.{
  Keyboard, Event, enqueue_event, handle_code, handle_key, queue_size, handle_scancode, toggle_caps,
  ticked, key_event,
}
use scdk.Keyboard.Keys.{
  KeyMapEntry, table_entry, scancode_set1, extended_scancode_set1, caps_lock_key,
}

-- A test of every number below `n`.
abbrev pub all_below : ℕ → (ℕ → Bool) → Bool
all_below zero f = true
all_below (suc n) f = f n && all_below n f

pub all_below-lt : (n : ℕ) (f : ℕ → Bool) → all_below n f ≡ true → (i : ℕ) → i < n → f i ≡ true
all_below-lt zero f h i lt = absurd (omega arith)
all_below-lt (suc n) f h i lt = elim (Bool-cases (n == i)) [
  | inl last ↦ let same : n ≡ i = ground arith in ground arith
  | inr before ↦ all_below-lt n f (ground arith) i (ground arith)
]

abbrev same : Bool → Bool → Bool
same true b = b
same false b = not b

same-eq : (a b : Bool) → same a b ≡ true → a ≡ b
same-eq true b h = sym h
same-eq false true h = h
same-eq false false h = refl

-- A byte's upper bit and its lower seven.
byte_upper : (b : ℕ) → b < 256 → (bit_and b 128 == 0) ≡ ltb b 128
byte_upper b lt =
    same-eq (bit_and b 128 == 0) (ltb b 128)
      (all_below-lt 256 (λ i. same (bit_and i 128 == 0) (ltb i 128)) refl b lt)

byte_lower : (b : ℕ) → b < 256 → (bit_and b 127 == b % 128) ≡ true
byte_lower = all_below-lt 256 (λ i. bit_and i 127 == i % 128) refl

-- The caps lock key stands at its place of the table alone.
caps_place :
    (c : ℕ) → c < 128 → ((table_entry scancode_set1 c).keycode == caps_lock_key) ≡ (c == 58)
unfolding table_entry
caps_place c lt = same-eq ((table_entry scancode_set1 c).keycode == caps_lock_key) (c == 58) (
    all_below-lt 128 (λ i. same ((table_entry scancode_set1 i).keycode == caps_lock_key) (i == 58))
      refl c lt)

caps_elsewhere :
    (c : ℕ) → c < 128 → ((table_entry extended_scancode_set1 c).keycode == caps_lock_key) ≡ false
unfolding table_entry
caps_elsewhere c lt =
    same-eq ((table_entry extended_scancode_set1 c).keycode == caps_lock_key) false (
      all_below-lt 128
        (λ i. same ((table_entry extended_scancode_set1 i).keycode == caps_lock_key) false) refl c
        lt)

-- The modifiers of a keyboard.
pub record Keys : Type 0 where
  pub left : Bool
  pub right : Bool
  pub caps : Bool

abbrev pub keys : Keyboard → Keys
keys k = record { left = k.left_shift_down; right = k.right_shift_down; caps = k.caps_lock_on }

enqueue_event-keys :
    (k : Keyboard) (e : Event)
    → (keys (enqueue_event k e).1 ≡ keys k)
      × ((enqueue_event k e).1.extended_pending ≡ k.extended_pending)
unfolding enqueue_event
enqueue_event-keys k e = elim (Bool-cases (leb queue_size k.count)) [
  | inl full ↦ rw full (refl, refl)
  | inr room ↦ rw room (refl, refl)
]

-- The modifiers after one code.
abbrev pub after_code : Keys → ℕ → Bool → Keys
after_code s c released = record {
  left = if c == 42 then not released else s.left;
  right = if c == 54 then not released else s.right;
  caps = if c == 58 && not released then not s.caps else s.caps;
}

toggle_caps-keys :
    (k : Keyboard) (e : KeyMapEntry) (released : Bool) (c : ℕ)
    → (c == 42) ≡ false
    → (c == 54) ≡ false
    → (e.keycode == caps_lock_key) ≡ (c == 58)
    → (keys (toggle_caps k e released) ≡ after_code (keys k) c released)
      × ((toggle_caps k e released).extended_pending ≡ k.extended_pending)
toggle_caps-keys k e released c l r place = elim (Bool-cases (c == 58 && not released)) [
  | inl caps ↦ rw (l, r, place, caps) (refl, refl)
  | inr other ↦ rw (l, r, place, other) (refl, refl)
]

handle_key-keys :
    (k : Keyboard) (e : KeyMapEntry) (released : Bool) (c : ℕ)
    → (c == 42) ≡ false
    → (c == 54) ≡ false
    → (e.keycode == caps_lock_key) ≡ (c == 58)
    → (keys (handle_key k e released).1 ≡ after_code (keys k) c released)
      × ((handle_key k e released).1.extended_pending ≡ k.extended_pending)
handle_key-keys k e released c l r place =
    let k' = toggle_caps k e released in
    let (a, b) = enqueue_event-keys (ticked k') (key_event k' e released) in
    let (x, y) = toggle_caps-keys k e released c l r place in (a ∙ x, b ∙ y)

-- A code that changes no modifier.
after_code-other :
    (k : Keyboard) (c : ℕ) (released : Bool)
    → (c == 42) ≡ false
    → (c == 54) ≡ false
    → (c == 58) ≡ false
    → after_code (keys k) c released ≡ keys k
after_code-other k c released l r p = rw (l, r, p) refl

handle_code-keys :
    (k : Keyboard) (c : ℕ) (released : Bool)
    → c < 128
    → (keys (handle_code k false c released).1 ≡ after_code (keys k) c released)
      × ((handle_code k false c released).1.extended_pending ≡ k.extended_pending)
unfolding handle_code
handle_code-keys k c released lt = elim (Bool-cases (c == 42)) [
  | inl left ↦
      let r : (c == 54) ≡ false = ground arith in
      let p : (c == 58) ≡ false = ground arith in rw (left, r, p, handle_code) (refl, refl)
  | inr l ↦ elim (Bool-cases (c == 54)) [
    | inl right ↦
        let p : (c == 58) ≡ false = ground arith in rw (l, right, p, handle_code) (refl, refl)
    | inr r ↦
        let small : leb 128 c ≡ false = ground arith in
        let place = caps_place c lt in
        elim (Bool-cases ((table_entry scancode_set1 c).keycode == 0)) [
          | inl empty ↦
              let p : (c == 58) ≡ false = sym place ∙ ground arith in
              rw (l, r, small, empty, p, handle_code) (refl, refl)
          | inr full ↦
              let go : handle_code k false c released
                  ≡ handle_key k (table_entry scancode_set1 c) released =
                rw (l, r, small, full, handle_code) refl in
              let (a, b) = handle_key-keys k (table_entry scancode_set1 c) released c l r place in
              (ap (λ x. keys x.1) go ∙ a, ap (λ x. x.1.extended_pending) go ∙ b)
        ]
  ]
]

-- After the prefix no code is a modifier's.
handle_code-keys_extended :
    (k : Keyboard) (c : ℕ) (released : Bool)
    → c < 128
    → (keys (handle_code k true c released).1 ≡ keys k)
      × ((handle_code k true c released).1.extended_pending ≡ k.extended_pending)
unfolding handle_code
handle_code-keys_extended k c released lt =
    let small : leb 128 c ≡ false = ground arith in
    let e = table_entry extended_scancode_set1 c in
    elim (Bool-cases (e.keycode == 0)) [
      | inl empty ↦ rw (small, empty, handle_code) (refl, refl)
      | inr full ↦
          rw (small, full, handle_code)
            (handle_key-keys k e released 0 refl refl (caps_elsewhere c lt))
    ]

-- A byte's code and whether it is a release.
abbrev pub released_by : ℕ → Bool
released_by b = not (ltb b 128)

module _ (k : Keyboard) (b : ℕ) (lt : b < 256) (no_prefix : (b == 224) ≡ false) where
  lower : bit_and b 127 ≡ b % 128
  lower = let h = byte_lower b lt in ground arith

  pub handle_scancode-keys :
      k.extended_pending ≡ false
      → (keys (handle_scancode k b).1 ≡ after_code (keys k) (b % 128) (released_by b))
        × ((handle_scancode k b).1.extended_pending ≡ false)
  unfolding handle_scancode
  handle_scancode-keys ext =
      let k' = record k { extended_pending = false } in
      let go : handle_scancode k b ≡ handle_code k' false (b % 128) (released_by b) =
        rw (no_prefix, lower, byte_upper b lt, ext) refl in
      let (x, y) = handle_code-keys k' (b % 128) (released_by b) (omega arith) in
      (ap (λ z. keys z.1) go ∙ x, ap (λ z. z.1.extended_pending) go ∙ y)

  pub handle_scancode-keys_extended :
      k.extended_pending ≡ true
      → (keys (handle_scancode k b).1 ≡ keys k) × ((handle_scancode k b).1.extended_pending ≡ false)
  unfolding handle_scancode
  handle_scancode-keys_extended ext =
      let k' = record k { extended_pending = false } in
      let go : handle_scancode k b ≡ handle_code k' true (b % 128) (released_by b) =
        rw (no_prefix, lower, byte_upper b lt, ext) refl in
      let (x, y) = handle_code-keys_extended k' (b % 128) (released_by b) (omega arith) in
      (ap (λ z. keys z.1) go ∙ x, ap (λ z. z.1.extended_pending) go ∙ y)
