-- ===== src/Keyboard/Keys.antt =====
-- src/drivers/input/ps2_keyboard.c and src/include/scdk/input.h: the keys of a PS/2 keyboard.
use scdk.Base.{ℕ, true, false, List, [], ◌∷◌, ◌==◌}

-- `enum scdk_keycode`, as far as the driver names one
abbrev pub caps_lock_key : ℕ
caps_lock_key = 58

-- `struct key_map_entry`
pub record KeyMapEntry : Type 0 where
  pub keycode : ℕ
  pub normal : ℕ
  pub shifted : ℕ

abbrev pub no_key : KeyMapEntry
no_key = record { keycode = 0; normal = 0; shifted = 0 }

-- One line of a table: the code's entry.
abbrev pub key : ℕ → ℕ → ℕ → ℕ → ℕ × KeyMapEntry
key code keycode normal shifted =
    (code, record { keycode = keycode; normal = normal; shifted = shifted })

-- The element of a table with the given lines; the rest of it is zero.
unfoldable pub table_entry : List (ℕ × KeyMapEntry) → ℕ → KeyMapEntry
table_entry [] code = no_key
table_entry ((c, e) ∷ rows) code = elim (c == code) [ true ↦ e | false ↦ table_entry rows code ]

abbrev pub scancode_set1 : List (ℕ × KeyMapEntry)
scancode_set1 =
    key 1 27 27 27
    ∷ key 2 49 49 33
    ∷ key 3 50 50 64
    ∷ key 4 51 51 35
    ∷ key 5 52 52 36
    ∷ key 6 53 53 37
    ∷ key 7 54 54 94
    ∷ key 8 55 55 38
    ∷ key 9 56 56 42
    ∷ key 10 57 57 40
    ∷ key 11 48 48 41
    ∷ key 12 45 45 95
    ∷ key 13 61 61 43
    ∷ key 14 8 8 8
    ∷ key 15 9 9 9
    ∷ key 16 113 113 81
    ∷ key 17 119 119 87
    ∷ key 18 101 101 69
    ∷ key 19 114 114 82
    ∷ key 20 116 116 84
    ∷ key 21 121 121 89
    ∷ key 22 117 117 85
    ∷ key 23 105 105 73
    ∷ key 24 111 111 79
    ∷ key 25 112 112 80
    ∷ key 26 91 91 123
    ∷ key 27 93 93 125
    ∷ key 28 13 10 10
    ∷ key 30 97 97 65
    ∷ key 31 115 115 83
    ∷ key 32 100 100 68
    ∷ key 33 102 102 70
    ∷ key 34 103 103 71
    ∷ key 35 104 104 72
    ∷ key 36 106 106 74
    ∷ key 37 107 107 75
    ∷ key 38 108 108 76
    ∷ key 39 59 59 58
    ∷ key 40 39 39 34
    ∷ key 41 96 96 126
    ∷ key 43 92 92 124
    ∷ key 44 122 122 90
    ∷ key 45 120 120 88
    ∷ key 46 99 99 67
    ∷ key 47 118 118 86
    ∷ key 48 98 98 66
    ∷ key 49 110 110 78
    ∷ key 50 109 109 77
    ∷ key 51 44 44 60
    ∷ key 52 46 46 62
    ∷ key 53 47 47 63
    ∷ key 57 32 32 32
    ∷ key 58 58 0 0
    ∷ []

abbrev pub extended_scancode_set1 : List (ℕ × KeyMapEntry)
extended_scancode_set1 =
    key 71 256 0 0
    ∷ key 72 257 0 0
    ∷ key 73 258 0 0
    ∷ key 75 259 0 0
    ∷ key 77 260 0 0
    ∷ key 79 261 0 0
    ∷ key 80 262 0 0
    ∷ key 81 263 0 0
    ∷ []
