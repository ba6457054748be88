-- ===== src/Ring/Queue.antt =====
-- One queue of a ring: two wrapping counters over storage whose size divides 2 ^ 32, against an
-- abstract bounded queue.
use scdk.Base.{
  ℕ, suc, ◌+◌, ◌-◌, ◌%◌, ◌/◌, ◌*◌, ◌^◌, ◌≤◌, ◌<◌, ◌≡◌, ◌≢◌, refl, sym, ◌∙◌, ap, List, [], ◌∷◌, ◌++◌,
  length, arith, update, true, false, leb, if◌then◌else◌,
}
use native.Mathlib.Nat.{add-mul-mod_self_right, div-add-mod}
use scdk.Status.{Result, Status, ok, err, busy, noent}
use scdk.Kernel.{ring_max_entries}
use scdk.Ring.{queue_count, advance}
use scdk.Ring.Window.{window, window-cong, window-update}

-- The abstract bounded queue.
module _ {A : Type 0} where
  unfoldable pub push : ℕ → List A → A → Status × List A
  push cap q x = if leb cap (length q) then (err busy, q) else (ok tt, q ++ (x ∷ []))

  unfoldable pub pop : List A → Result A × List A
  pop [] = (err noent, [])
  pop (x ∷ q) = (ok x, q)

pub push-full :
    {A : Type 0} (cap n : ℕ) (q : List A) (x : A)
    → length q ≡ n
    → leb cap n ≡ true
    → push cap q x ≡ (err busy, q)
unfolding push
push-full cap n q x e full = rw (e, full) refl

pub push-room :
    {A : Type 0} (cap n : ℕ) (q : List A) (x : A)
    → length q ≡ n
    → leb cap n ≡ false
    → push cap q x ≡ (ok tt, q ++ (x ∷ []))
unfolding push
push-room cap n q x e room = rw (e, room) refl

-- One queue of a ring: its counters fit 32 bits and hold at most `entries` elements.
pub record Queued (entries head tail : ℕ) : Type 0 where
  pub head_small : head < 2 ^ 32
  pub tail_small : tail < 2 ^ 32
  pub fits : queue_count head tail ≤ entries

abbrev pub queue {ℓ} : {A : Type ℓ} → (ℕ → A) → ℕ → ℕ → ℕ → List A
queue f e head tail = window f e head (queue_count head tail)

-- The wrap does not move an index.
mod-wrap : (x e : ℕ) → 2 ^ 32 % e ≡ 0 → x % 2 ^ 32 % e ≡ x % e
mod-wrap x e d =
    sym (ap (λ n. n % e) parts ∙ add-mul-mod_self_right (x % 2 ^ 32) (x / 2 ^ 32 * (2 ^ 32 / e)) e)
  where
    whole : 2 ^ 32 ≡ 2 ^ 32 / e * e
    whole = omega (arith, div-add-mod (2 ^ 32) e)

    parts : x ≡ x % 2 ^ 32 + x / 2 ^ 32 * (2 ^ 32 / e) * e
    parts = omega (arith, ap (λ (n : ℕ). x / 2 ^ 32 * n) whole)

count-advance_tail :
    (head tail : ℕ)
    → head < 2 ^ 32
    → tail < 2 ^ 32
    → queue_count head tail < 2 ^ 32 - 1
    → queue_count head (advance tail) ≡ queue_count head tail + 1
count-advance_tail head tail h t lt = omega arith

count-advance_head :
    (head tail : ℕ)
    → head < 2 ^ 32
    → tail < 2 ^ 32
    → head ≢ tail
    → queue_count head tail ≡ suc (queue_count (advance head) tail)
count-advance_head head tail h t ne = omega arith

module _ {A : Type 0} (f : ℕ → A) (e head tail : ℕ) (pos : 0 < e) (few : e ≤ ring_max_entries)
    (d : 2 ^ 32 % e ≡ 0) (v : Queued e head tail) where
  pub queue-push :
      (x : A)
      → queue_count head tail < e
      → queue (update f (tail % e) x) e head (advance tail) ≡ queue f e head tail ++ (x ∷ [])
  queue-push x lt =
      let end : tail % e ≡ (head + queue_count head tail) % e =
        ap (λ n. n % e) (omega (arith, v.head_small, v.tail_small))
        ∙ mod-wrap (head + queue_count head tail) e d in
      let count = count-advance_tail head tail v.head_small v.tail_small (omega arith) in
      let more : queue_count head (advance tail) ≡ suc (queue_count head tail) =
        omega (arith, count) in
      ap (window (update f (tail % e) x) e head) more
      ∙ ap (λ j. window (update f j x) e head (suc (queue_count head tail))) end
      ∙ window-update f e head (queue_count head tail) x lt

  pub queue-pop : head ≢ tail → queue f e head tail ≡ f (head % e) ∷ queue f e (advance head) tail
  queue-pop ne =
      let count = count-advance_head head tail v.head_small v.tail_small ne in
      rw count (
        ap (◌∷◌ (f (head % e))) (
          window-cong f e (head + 1) (advance head) (queue_count (advance head) tail)
            (sym (mod-wrap (head + 1) e d))))

  pub push-Queued : queue_count head tail < e → Queued e head (advance tail)
  push-Queued lt = record {
    head_small = v.head_small;
    tail_small = omega arith;
    fits = omega (arith, count-advance_tail head tail v.head_small v.tail_small (omega arith));
  }

  pub pop-Queued : head ≢ tail → Queued e (advance head) tail
  pop-Queued ne = record {
    head_small = omega arith;
    tail_small = v.tail_small;
    fits = omega (arith, v.fits, count-advance_head head tail v.head_small v.tail_small ne);
  }

pub pop-empty :
    {A : Type 0} (f : ℕ → A) (e head tail : ℕ)
    → head < 2 ^ 32
    → head ≡ tail
    → pop (queue f e head tail) ≡ (err noent, queue f e head tail)
unfolding pop
pop-empty f e head tail lt same =
    let none_left : queue_count head tail ≡ 0 = omega arith in rw none_left refl
