-- ===== src/Tests/Keys.antt =====
-- A keyboard that has just started, and its events as messages.
use scdk.Base.{ℕ, ◌^◌, ◌≡◌, refl, true, false, List, [], ◌∷◌, arith}
use scdk.Message
use scdk.Keyboard.{Keyboard, Event}
use scdk.Keyboard.History.{scan, held, flipped, unprefixed, scan-history}
use scdk.Keyboard.Queue.{pending}
use scdk.Keyboard.Stamped.{Stamped, Within}
use scdk.Keyboard.Trace.{Op, polls, injects, run, run-Within}
use scdk.Tty.{pack_event}
use scdk.Tty.Pack.{unpack_event, unpack-pack_event}

abbrev no_event : Event
no_event = record { timestamp = 0; type = 0; keycode = 0; ascii = 0; modifiers = 0; flags = 0 }

abbrev started : Keyboard
started = record {
  queue = λ i. no_event;
  head = 0;
  tail = 0;
  count = 0;
  clock = 0;
  initialized = true;
  left_shift_down = false;
  right_shift_down = false;
  caps_lock_on = false;
  extended_pending = false;
}

-- Left shift, `a`, the prefix with left shift's code, caps lock, and left shift's release.
abbrev typed : List ℕ
typed = 42 ∷ 30 ∷ 224 ∷ 42 ∷ 58 ∷ 170 ∷ []

scan-history_example :
    ((scan started typed).left_shift_down ≡ held 42 false (unprefixed false typed))
    × ((scan started typed).right_shift_down ≡ held 54 false (unprefixed false typed))
    × ((scan started typed).caps_lock_on ≡ flipped 58 false (unprefixed false typed))
scan-history_example =
    scan-history started typed
      (omega arith, (omega arith, (omega arith, (omega arith, (omega arith, (omega arith, tt))))))

started-Stamped : Stamped 0 started
unfolding pending
started-Stamped = record {
  started = refl;
  valid = record { head_small = omega arith; fits = omega arith; tail_right = omega arith };
  within = omega arith;
}

-- `a` is typed while a key waits.
abbrev calls : List Op
calls = injects 65 ∷ injects 66 ∷ polls 1 30 ∷ polls 1 30 ∷ polls 1 30 ∷ []

run-Within_example : Within 0 (run started calls) (2 ^ 64)
run-Within_example = run-Within 0 started calls (omega arith) started-Stamped

abbrev event : Event
event = record { timestamp = 9; type = 1; keycode = 258; ascii = 0; modifiers = 3; flags = 0 }

unpack-pack_event_example : unpack_event (pack_event event (Message.init 1 7 0x2100)) ≡ event
unpack-pack_event_example = unpack-pack_event event (Message.init 1 7 0x2100) (record {
  type_small = omega arith;
  keycode_small = omega arith;
  modifiers_small = omega arith;
  flags_small = omega arith;
})
