-- ===== src/Grant/Range.antt =====
-- What a successful access through a grant keeps to.
use scdk.Base.{ℕ, ◌+◌, ◌-◌, ◌%◌, ◌^◌, ◌≤◌, ◌<◌, ◌≡◌, ◌≢◌, inl, inr, Bool, true, false, arith}
use scdk.Status.{ok, Result-cases}
use scdk.Cap.{has_rights}
use scdk.Kernel.{Kernel, Grant}
use scdk.Grant.{beyond_mask, lookup, check_range, resolve}

-- The range lies within the grant, is not empty, and the grant holds the rights.
pub record Within (g : Grant) (required offset length : ℕ) : Type 0 where
  pub starts : g.offset ≤ offset
  pub ends : offset - g.offset + length ≤ g.length
  pub some_bytes : 0 < length
  pub allowed : has_rights g.rights required ≡ true
  pub known : beyond_mask required ≡ false
  pub some_right : required ≢ 0

pub check_range-Within :
    (g : Grant) (required offset length : ℕ)
    → check_range g required offset length ≡ ok tt
    → Within g required offset length
unfolding check_range
check_range-Within g required offset length h = record {
  starts = ground arith;
  ends = ground arith;
  some_bytes = ground arith;
  allowed = ground arith;
  known = ground arith;
  some_right = ground arith;
}

pub Within-check_range :
    (g : Grant) (required offset length : ℕ)
    → Within g required offset length
    → check_range g required offset length ≡ ok tt
unfolding check_range
Within-check_range g required offset length w =
    let a = w.allowed in let b = w.known in let c = w.some_right in ground arith

-- A pointer that a grant resolves to, with all the bytes asked for, lies in the granted range, and
-- the grant found holds the rights asked for.
resolve_bounds :
    (k : Kernel) (cap required offset length : ℕ) (out : Bool) {ptr : ℕ}
    → resolve k cap required offset length out ≡ ok ptr
    → (g : Grant) × (lookup k cap required ≡ ok g)
      × Within g required offset length
      × (ptr ≡ (g.base + (offset - g.offset)) % 2 ^ 64)
unfolding resolve
resolve_bounds k cap required offset length out {ptr} h =
    elim (Result-cases (lookup k cap required)) [
      | inr (e, bad) ↦ absurd (ground arith)
      | inl (g, found) ↦ elim (Result-cases (check_range g required offset length)) [
        | inr (e, bad) ↦ absurd (ground arith)
        | inl (u, fits) ↦
            (g, found, check_range-Within g required offset length (ground arith), ground arith)
      ]
    ]
