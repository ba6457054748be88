-- ===== src/Tty/Pack.antt =====
-- An event survives its way through a message.
use scdk.Base.{ℕ, ◌+◌, ◌*◌, ◌/◌, ◌%◌, ◌^◌, ◌<◌, ◌≡◌, ◌∙◌, ap, arith, bit_or, bit_or_disjoint}
use mathlib.Core.Path.{ap₂}
use scdk.Kernel.{Message}
use scdk.Keyboard.{Event}
use scdk.Tty.{two_halves, pack_event}

-- The event that a reader of the message takes from it.
abbrev pub unpack_event : Message → Event
unpack_event msg = record {
  timestamp = msg.arg0;
  type = msg.arg1 / 2 ^ 32;
  keycode = msg.arg1 % 2 ^ 32;
  ascii = msg.arg2;
  modifiers = msg.arg3 / 2 ^ 32;
  flags = msg.arg3 % 2 ^ 32;
}

-- Each field of the event fits its width.
pub record Fits (e : Event) : Type 0 where
  pub type_small : e.type < 2 ^ 32
  pub keycode_small : e.keycode < 2 ^ 32
  pub modifiers_small : e.modifiers < 2 ^ 32
  pub flags_small : e.flags < 2 ^ 32

two_halves-parts :
    (high low : ℕ)
    → high < 2 ^ 32
    → low < 2 ^ 32
    → (two_halves high low / 2 ^ 32 ≡ high) × (two_halves high low % 2 ^ 32 ≡ low)
unfolding two_halves
two_halves-parts high low h l =
    let small : high * 2 ^ 32 % 2 ^ 64 ≡ high * 2 ^ 32 = omega arith in
    let sum : two_halves high low ≡ high * 2 ^ 32 + low =
      ap (λ n. bit_or n low) small ∙ bit_or_disjoint 32 high low l in
    (omega (arith, sum), omega (arith, sum))

-- An event whose four 32-bit fields fit their width is packed into a message from which it can be
-- read back whole.
pub unpack-pack_event : (e : Event) (msg : Message) → Fits e → unpack_event (pack_event e msg) ≡ e
unfolding pack_event
unpack-pack_event e msg f =
    let (type, keycode) = two_halves-parts e.type e.keycode f.type_small f.keycode_small in
    let (modifiers, flags) = two_halves-parts e.modifiers e.flags f.modifiers_small f.flags_small in
    ap₂
      (λ t c. record e {
        type = t;
        keycode = c;
        modifiers = two_halves e.modifiers e.flags / 2 ^ 32;
        flags = two_halves e.modifiers e.flags % 2 ^ 32;
      })
      type keycode
    ∙ ap₂ (λ m g. record e { modifiers = m; flags = g }) modifiers flags
