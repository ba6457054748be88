-- ===== src/Keyboard/Queue.antt =====
-- The driver's queue of events, against a bounded queue.
use scdk.Base.{
  suc, ◌+◌, ◌-◌, ◌%◌, ◌^◌, ◌≤◌, ◌<◌, ◌≡◌, refl, ap, subst, sym, ◌∙◌, leb, ◌==◌, inl, inr, arith,
  Bool-cases, List, [], ◌∷◌, ◌++◌, length, update,
}
use scdk.Status.{ok, err, noent}
use scdk.Ring.Queue.{push, pop, push-full, push-room}
use scdk.Ring.Window.{window, window-cong, window-update, length-window}
use scdk.Keyboard.{Keyboard, Event, queue_size, enqueue_event, dequeue_event}

-- The queue's three numbers agree.
pub record IsValid (k : Keyboard) : Type 0 where
  pub head_small : k.head < queue_size
  pub fits : k.count ≤ queue_size
  pub tail_right : k.tail ≡ (k.head + k.count) % queue_size

-- The events that wait, the oldest first.
unfoldable pub pending : Keyboard → List Event
pending k = window k.queue queue_size k.head k.count

-- Putting an event into a valid queue is a push to a queue of 32 that refuses when it is full.
pub enqueue_refines :
    (k : Keyboard) (e : Event)
    → IsValid k
    → let (s, k') = enqueue_event k e in
      ((s, pending k') ≡ push queue_size (pending k) e) × IsValid k'
unfolding enqueue_event pending
enqueue_refines k e v = elim (Bool-cases (leb queue_size k.count)) [
  | inl full ↦ rw full (sym (push-full queue_size k.count (pending k) e size full), v)
  | inr room ↦
      let lt : k.count < queue_size = ground arith in
      rw room (
        ap (λ q. (ok tt, q)) (more lt) ∙ sym (push-room queue_size k.count (pending k) e size room),
        record {
          head_small = v.head_small;
          fits = omega arith;
          tail_right = omega (arith, v.tail_right);
        },
      )
]
  where
    size : length (pending k) ≡ k.count
    size = length-window k.queue queue_size k.head k.count

    more :
        k.count < queue_size
        → window (update k.queue k.tail e) queue_size k.head (k.count + 1) ≡ pending k ++ (e ∷ [])
    more lt =
        let one_more : k.count + 1 ≡ suc k.count = omega arith in
        ap (window (update k.queue k.tail e) queue_size k.head) one_more
        ∙ ap (λ j. window (update k.queue j e) queue_size k.head (suc k.count)) v.tail_right
        ∙ window-update k.queue queue_size k.head k.count e lt

-- Taking an event from a valid queue is a pop.
pub dequeue_refines :
    (k : Keyboard)
    → IsValid k
    → let (e, k') = dequeue_event k in ((e, pending k') ≡ pop (pending k)) × IsValid k'
unfolding dequeue_event pending pop
dequeue_refines k v = elim (Bool-cases (k.count == 0)) [
  | inl empty ↦
      let z : k.count ≡ 0 = ground arith in
      let none_left : pending k ≡ [] = ap (window k.queue queue_size k.head) z in
      rw empty (subst (λ q. (err noent, q) ≡ pop q) (sym none_left) refl, v)
  | inr some_left ↦
      let next_head : (k.head + 1) % 2 ^ 32 % queue_size ≡ (k.head + 1) % queue_size =
        omega (arith, v.head_small) in
      let one_more : k.count ≡ suc (k.count - 1) = ground arith in
      rw some_left (
        sym (ap pop (first one_more)),
        record {
          head_small = omega arith;
          fits = omega (arith, v.fits);
          tail_right = omega (arith, v.tail_right, one_more);
        },
      )
]
  where
    first :
        k.count ≡ suc (k.count - 1)
        → pending k
          ≡ k.queue k.head
            ∷ window k.queue queue_size ((k.head + 1) % 2 ^ 32 % queue_size) (k.count - 1)
    first one_more =
        ap (window k.queue queue_size k.head) one_more
        ∙ ap (λ i. k.queue i ∷ window k.queue queue_size (k.head + 1) (k.count - 1))
            (omega (arith, v.head_small))
        ∙ ap (◌∷◌ (k.queue k.head)) (
            window-cong k.queue queue_size (k.head + 1) ((k.head + 1) % 2 ^ 32 % queue_size)
              (k.count - 1) (omega (arith, v.head_small)))
