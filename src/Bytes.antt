-- ===== src/Bytes.antt =====
-- src/kernel/string.c: the memory routines, on the byte at each address.
pub mod Move
use scdk.Base.{
  ℕ, zero, suc, ◌+◌, ◌%◌, true, false, ◌||◌, Option, none, some, ltb, ◌==◌, if◌then◌else◌, update,
}

-- `d[i] = s[i]` for `left` indices from `i` upwards.
unfoldable pub copy_up : ℕ → ℕ → (ℕ → ℕ) → ℕ → ℕ → ℕ → ℕ
copy_up zero i mem dest src = mem
copy_up (suc left) i mem dest src =
    copy_up left (i + 1) (update mem (dest + i) (mem (src + i))) dest src

-- `d[i - 1] = s[i - 1]` for `i` from the number given downwards.
unfoldable pub copy_down : ℕ → (ℕ → ℕ) → ℕ → ℕ → ℕ → ℕ
copy_down zero mem dest src = mem
copy_down (suc i) mem dest src = copy_down i (update mem (dest + i) (mem (src + i))) dest src

-- `memcpy`
unfoldable pub memcpy : (ℕ → ℕ) → ℕ → ℕ → ℕ → ℕ → ℕ
memcpy mem dest src n = copy_up n 0 mem dest src

-- The loop of `memset`, with `left` bytes to go.
unfoldable pub fill_from : ℕ → ℕ → (ℕ → ℕ) → ℕ → ℕ → ℕ → ℕ
fill_from zero i mem dest c = mem
fill_from (suc left) i mem dest c = fill_from left (i + 1) (update mem (dest + i) (c % 256)) dest c

-- `memset`
unfoldable pub memset : (ℕ → ℕ) → ℕ → ℕ → ℕ → ℕ → ℕ
memset mem dest c n = fill_from n 0 mem dest c

-- `memmove`
unfoldable pub memmove : (ℕ → ℕ) → ℕ → ℕ → ℕ → ℕ → ℕ
memmove mem dest src n =
    if dest == src || n == 0
    then mem
    else if ltb dest src
    then copy_up n 0 mem dest src
    else copy_down n mem dest src

-- The loop of `memcmp`: the first two bytes that differ, whose difference is the result, or `none`
-- for 0.
unfoldable pub compare_from : ℕ → ℕ → (ℕ → ℕ) → ℕ → ℕ → Option (ℕ × ℕ)
compare_from zero i mem lhs rhs = none
compare_from (suc left) i mem lhs rhs = elim (mem (lhs + i) == mem (rhs + i)) [
  | true ↦ compare_from left (i + 1) mem lhs rhs
  | false ↦ some (mem (lhs + i), mem (rhs + i))
]

-- `memcmp`
unfoldable pub memcmp : (ℕ → ℕ) → ℕ → ℕ → ℕ → Option (ℕ × ℕ)
memcmp mem lhs rhs n = compare_from n 0 mem lhs rhs

-- `strlen` from length `len` on; `none` says that no end mark stood within the fuel.
unfoldable pub strlen : ℕ → (ℕ → ℕ) → ℕ → ℕ → Option ℕ
strlen zero mem s len = none
strlen (suc fuel) mem s len = elim (mem (s + len) == 0) [
  | true ↦ some len
  | false ↦ strlen fuel mem s (len + 1)
]
