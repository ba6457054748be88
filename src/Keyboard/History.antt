-- ===== src/Keyboard/History.antt =====
-- The modifier keys after any bytes from the keyboard: each is as its own presses and releases
-- leave it.
use scdk.Base.{
  ℕ, ◌+◌, ◌%◌, ◌<◌, ◌≡◌, refl, sym, ◌∙◌, ap, Bool, true, false, not, ◌&&◌, ltb, ◌==◌, if◌then◌else◌,
  inl, inr, arith, Bool-cases, List, [], ◌∷◌,
}
use scdk.Status.{err, noent}
use scdk.Keyboard.{Keyboard, handle_scancode}
use scdk.Keyboard.Modifiers.{
  Keys, keys, after_code, released_by, handle_scancode-keys, handle_scancode-keys_extended,
}

-- The keyboard after the bytes.
unfoldable pub scan : Keyboard → List ℕ → Keyboard
scan k [] = k
scan k (b ∷ bs) = scan (handle_scancode k b).1 bs

-- The bytes less the prefix `0xe0` and the byte after it. `extended` says that the prefix came just
-- before.
unfoldable pub unprefixed : Bool → List ℕ → List ℕ
unprefixed extended [] = []
unprefixed extended (b ∷ bs) = elim (b == 224) [
  | true ↦ unprefixed true bs
  | false ↦ elim extended [ true ↦ unprefixed false bs | false ↦ b ∷ unprefixed false bs ]
]

-- One byte's meaning for the key with code `code`, and that of the bytes: is it held down?
abbrev pub press : ℕ → Bool → ℕ → Bool
press code down b = if b == code then true else if b == code + 128 then false else down

unfoldable pub held : ℕ → Bool → List ℕ → Bool
held code down [] = down
held code down (b ∷ bs) = held code (press code down b) bs

-- A lock that each press of the key with code `code` turns over.
unfoldable pub flipped : ℕ → Bool → List ℕ → Bool
flipped code on [] = on
flipped code on (b ∷ bs) = flipped code (if b == code then not on else on) bs

abbrev pub AreBytes : List ℕ → Type 0
AreBytes [] = Unit
AreBytes (b ∷ bs) = (b < 256) × AreBytes bs

abbrev history : Keys → List ℕ → Keys
history s bs = record {
  left = held 42 s.left bs;
  right = held 54 s.right bs;
  caps = flipped 58 s.caps bs;
}

module _ (b : ℕ) (lt : b < 256) where
  press_lem :
      (code : ℕ) (down : Bool)
      → code < 128
      → (if b % 128 == code then not (released_by b) else down) ≡ press code down b
  press_lem code down small = elim (Bool-cases (ltb b 128)) [
    | inl low ↦ let e : b % 128 ≡ b = ground arith in ground arith
    | inr high ↦ let e : b % 128 + 128 ≡ b = ground arith in ground arith
  ]

  flip_lem :
      (on : Bool)
      → (if b % 128 == 58 && not (released_by b) then not on else on)
        ≡ (if b == 58 then not on else on)
  flip_lem on = elim (Bool-cases (ltb b 128)) [
    | inl low ↦ let e : b % 128 ≡ b = ground arith in ground arith
    | inr high ↦ let e : b % 128 + 128 ≡ b = ground arith in ground arith
  ]

  after_code-history :
      (s : Keys) (bs : List ℕ)
      → history (after_code s (b % 128) (released_by b)) bs ≡ history s (b ∷ bs)
  unfolding held flipped
  after_code-history s bs =
      rw (press_lem 42 s.left (omega arith), press_lem 54 s.right (omega arith), flip_lem s.caps)
        refl

handle_scancode-prefix :
    (k : Keyboard) (b : ℕ)
    → (b == 224) ≡ true
    → handle_scancode k b ≡ (err noent, record k { extended_pending = true })
unfolding handle_scancode
handle_scancode-prefix k b prefix = rw prefix refl

scan-keys :
    (k : Keyboard) (bs : List ℕ)
    → AreBytes bs
    → (extended : Bool) → k.extended_pending ≡ extended
    → keys (scan k bs) ≡ history (keys k) (unprefixed extended bs)
unfolding scan unprefixed held flipped
scan-keys k [] all extended e = refl
scan-keys k (b ∷ bs) (lt, all) extended e = elim (Bool-cases (b == 224)) [
  | inl prefix ↦
      let step = handle_scancode-prefix k b prefix in
      let skip : unprefixed extended (b ∷ bs) ≡ unprefixed true bs = rw (prefix, unprefixed) refl in
      ap (λ z. keys (scan z.1 bs)) step
      ∙ scan-keys (record k { extended_pending = true }) bs all true refl
      ∙ ap (history (keys k)) (sym skip)
  | inr no_prefix ↦
      rw (no_prefix, unprefixed)
        (go extended e no_prefix (scan-keys (handle_scancode k b).1 bs all false))
]
  where
    go :
        (ext : Bool)
        → k.extended_pending ≡ ext
        → (b == 224) ≡ false
        → ((handle_scancode k b).1.extended_pending ≡ false
            → keys (scan (handle_scancode k b).1 bs)
              ≡ history (keys (handle_scancode k b).1) (unprefixed false bs))
        → keys (scan (handle_scancode k b).1 bs)
          ≡ history
              (keys k)
              (elim ext [ true ↦ unprefixed false bs | false ↦ b ∷ unprefixed false bs ])
    go true e no_prefix rest =
        let (x, y) = handle_scancode-keys_extended k b lt no_prefix e in
        rest y ∙ ap (λ s. history s (unprefixed false bs)) x
    go false e no_prefix rest =
        let (x, y) = handle_scancode-keys k b lt no_prefix e in
        rest y
        ∙ ap (λ s. history s (unprefixed false bs)) x
        ∙ after_code-history b lt (keys k) (unprefixed false bs)

-- Whatever bytes come from the keyboard, in whatever state it is: each shift key counts as held
-- down exactly when its last byte was a press, and the caps lock is turned over by each press of
-- its key and by no release, where the bytes that the prefix 0xe0 announces do not count.
pub scan-history :
    (k : Keyboard) (bs : List ℕ)
    → AreBytes bs
    → let codes = unprefixed k.extended_pending bs in
      ((scan k bs).left_shift_down ≡ held 42 k.left_shift_down codes)
      × ((scan k bs).right_shift_down ≡ held 54 k.right_shift_down codes)
      × ((scan k bs).caps_lock_on ≡ flipped 58 k.caps_lock_on codes)
scan-history k bs all =
    let h = scan-keys k bs all k.extended_pending refl in
    (ap (λ (s : Keys). s.left) h, ap (λ (s : Keys). s.right) h, ap (λ (s : Keys). s.caps) h)
