-- ===== src/Bytes/Move.antt =====
-- The two loops of `memmove`, against a copy from memory as it was.
use scdk.Base.{
  ◌⊎◌, ℕ, zero, suc, ◌+◌, ◌-◌, ◌≤◌, ◌≡◌, ◌∙◌, ◌&&◌, ◌||◌, inl, inr, leb, ltb, ◌==◌, if◌then◌else◌,
  update, Bool-cases, arith,
}
use scdk.Bytes.{memcpy, copy_up, copy_down, memmove}

-- Memory once `n` bytes are copied, all read before any is written.
abbrev pub copied : (ℕ → ℕ) → ℕ → ℕ → ℕ → ℕ → ℕ
copied mem dest src n a = if leb dest a && ltb a (dest + n) then mem (src + (a - dest)) else mem a

copy_up-copied :
    (left i : ℕ) (mem : ℕ → ℕ) (dest src a : ℕ)
    → dest ≤ src
    → copy_up left i mem dest src a
      ≡ (if leb (dest + i) a && ltb a (dest + i + left) then mem (src + (a - dest)) else mem a)
unfolding copy_up
copy_up-copied zero i mem dest src a h = ground arith
copy_up-copied (suc left) i mem dest src a h =
    let m = update mem (dest + i) (mem (src + i)) in
    copy_up-copied left (i + 1) m dest src a h ∙ ground arith

copy_down-copied :
    (n : ℕ) (mem : ℕ → ℕ) (dest src a : ℕ)
    → src ≤ dest
    → copy_down n mem dest src a ≡ copied mem dest src n a
unfolding copy_down
copy_down-copied zero mem dest src a h = ground arith
copy_down-copied (suc i) mem dest src a h =
    let m = update mem (dest + i) (mem (src + i)) in
    copy_down-copied i m dest src a h ∙ ground arith

-- `memmove` copies the bytes as they were before the call, for any overlap, and changes no other
-- byte.
pub memmove-copied :
    (mem : ℕ → ℕ) (dest src n a : ℕ) → memmove mem dest src n a ≡ copied mem dest src n a
unfolding memmove
memmove-copied mem dest src n a = elim (Bool-cases (dest == src || n == 0)) [
  | inl still ↦ rw still (ground arith)
  | inr moves ↦ elim (Bool-cases (ltb dest src)) [
    | inl before ↦
        rw (moves, before) (copy_up-copied n 0 mem dest src a (ground arith) ∙ ground arith)
    | inr after ↦ rw (moves, after) (copy_down-copied n mem dest src a (ground arith))
  ]
]

-- Upwards into bytes that stand apart from those that are read.
copy_up-apart :
    (left i : ℕ) (mem : ℕ → ℕ) (dest src a : ℕ)
    → src + i + left ≤ dest
    → copy_up left i mem dest src a
      ≡ (if leb (dest + i) a && ltb a (dest + i + left) then mem (src + (a - dest)) else mem a)
unfolding copy_up
copy_up-apart zero i mem dest src a h = ground arith
copy_up-apart (suc left) i mem dest src a h =
    let m = update mem (dest + i) (mem (src + i)) in
    copy_up-apart left (i + 1) m dest src a (omega arith) ∙ ground arith

-- `memcpy` copies whenever its writes do not reach what it has still to read.
pub memcpy-copied :
    (mem : ℕ → ℕ) (dest src n a : ℕ)
    → (dest ≤ src) ⊎ (src + n ≤ dest)
    → memcpy mem dest src n a ≡ copied mem dest src n a
unfolding memcpy
memcpy-copied mem dest src n a (inl before) =
    copy_up-copied n 0 mem dest src a before ∙ ground arith
memcpy-copied mem dest src n a (inr after) =
    copy_up-apart n 0 mem dest src a (omega arith) ∙ ground arith
