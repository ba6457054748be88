-- ===== src/Scheduler/Queue.antt =====
-- The run queue of the boot core: the slots of the threads that wait, in order.
use scdk.Base.{
  ℕ, suc, ◌+◌, ◌-◌, ◌%◌, ◌≤◌, ◌<◌, ◌≡◌, ◌≢◌, refl, sym, ◌∙◌, ap, subst, some, true, false, List, [],
  ◌∷◌, ◌++◌, fun_ext, arith, update, leb, ◌==◌, Bool-cases, inl, inr,
}
use scdk.Status.{Result, ok, noent, guard, ◌>>=◌, ◌>>◌}
use scdk.Object
use scdk.Object.{obj_thread}
use scdk.Cap
use scdk.Cap.{CapSpace, right_read}
use scdk.Ring.Window.{window, window-cong, window-update}
use scdk.Scheduler.{
  Scheduler, ThreadSlot, RunQueue, thread_at, dequeue_from, max_threads, thread_ready,
  thread_slot_for_cap, set_queued, drop_first, append_thread, enqueue_thread, dequeue_thread,
}

-- The tokens in a run queue, the oldest first.
abbrev pub tokens : RunQueue → List ℕ
tokens q = window q.entries max_threads q.head q.count

pub record IsRing (q : RunQueue) : Type 0 where
  pub head_small : q.head < max_threads
  pub few : q.count ≤ max_threads
  pub end : q.tail ≡ (q.head + q.count) % max_threads

-- A thread that can be dequeued.
pub record Ready (s : Scheduler) (cap i : ℕ) : Type 0 where
  pub slot : thread_slot_for_cap s cap ≡ ok i
  pub state : (s.threads i).state ≡ thread_ready
  pub named : (s.threads i).cap ≡ cap
  pub core : (s.threads i).owner_core ≡ 0

abbrev pub Absent : ℕ → List ℕ → Type 0
Absent i [] = Unit {0}
Absent i (j ∷ js) = (i ≢ j) × Absent i js

-- Tokens, and the slots of the ready threads that they name, each once.
pub data Waits (s : Scheduler) : List ℕ → List ℕ → Type 0 where
  nobody : Waits s [] []
  first_is :
      {cap i : ℕ} {caps slots : List ℕ}
      → Ready s cap i
      → Absent i slots
      → Waits s caps slots
      → Waits s (cap ∷ caps) (i ∷ slots)

-- What of a thread matters to those who look at the queue.
abbrev pub seen : ThreadSlot → ℕ × ℕ × ℕ
seen u = (u.state, u.cap, u.owner_core)

-- Other changes do not matter.
pub Waits-seen :
    {s t : Scheduler} (x y : ℕ) {caps slots : List ℕ}
    → ((token : ℕ) → thread_slot_for_cap t token ≡ thread_slot_for_cap s token)
    → ((j : ℕ) → x ≢ j → y ≢ j → seen (t.threads j) ≡ seen (s.threads j))
    → Waits s caps slots
    → Absent x slots
    → Absent y slots
    → Waits t caps slots
Waits-seen x y same kept nobody a b = nobody
Waits-seen {s} {t} x y same kept (first_is {cap = token} {i = i} r only w) (xi, a) (yi, b) =
    let k = kept i xi yi in
    first_is
      (record {
        slot = same token ∙ r.slot;
        state = ap (λ u. u.0) k ∙ r.state;
        named = ap (λ u. u.1) k ∙ r.named;
        core = ap (λ u. u.2) k ∙ r.core;
      })
      only (Waits-seen x y same kept w a b)

pub Absent-append :
    (i j : ℕ) (slots : List ℕ) → Absent i slots → i ≢ j → Absent i (slots ++ (j ∷ []))
Absent-append i j [] a ne = (ne, tt)
Absent-append i j (k ∷ slots) (h, a) ne = (h, Absent-append i j slots a ne)

-- A ready thread joins at the end.
pub Waits-append :
    {s : Scheduler} {caps slots : List ℕ} (cap i : ℕ)
    → Waits s caps slots
    → Ready s cap i
    → Absent i slots
    → Waits s (caps ++ (cap ∷ [])) (slots ++ (i ∷ []))
Waits-append cap i nobody r a = first_is r tt nobody
Waits-append cap i (first_is {i = j} q only w) r (ne, a) =
    first_is q (Absent-append j i _ only (λ e. ne (sym e))) (Waits-append cap i w r a)

-- The places that a queue's first and last token take.
pub tokens-suc :
    (q : RunQueue) (n : ℕ)
    → q.count ≡ suc n
    → tokens q ≡ q.entries (q.head % max_threads) ∷ window q.entries max_threads (q.head + 1) n
tokens-suc q n e = ap (window q.entries max_threads q.head) e

pub tokens-drop :
    (q : RunQueue) (n : ℕ)
    → IsRing q
    → q.count ≡ suc n
    → window q.entries max_threads (q.head + 1) n
      ≡ tokens (record q { head = (q.head + 1) % max_threads; count = q.count - 1 })
tokens-drop q n r e =
    let less : q.count - 1 ≡ n = omega arith in
    rw less
      (window-cong q.entries max_threads (q.head + 1) ((q.head + 1) % max_threads) n (omega arith))

pub tokens-push :
    (q : RunQueue) (cap : ℕ)
    → IsRing q
    → q.count < max_threads
    → tokens (record {
      entries = update q.entries q.tail cap;
      head = q.head;
      tail = (q.tail + 1) % max_threads;
      count = q.count + 1;
    })
      ≡ tokens q ++ (cap ∷ [])
tokens-push q cap r lt =
    let more : q.count + 1 ≡ suc q.count = omega arith in
    ap (window (update q.entries q.tail cap) max_threads q.head) more
    ∙ ap (λ (j : ℕ). window (update q.entries j cap) max_threads q.head (suc q.count)) r.end
    ∙ window-update q.entries max_threads q.head q.count cap lt

-- The queue without its first token, and with one more.
abbrev pub dropped : RunQueue → RunQueue
dropped q = record q { head = (q.head + 1) % max_threads; count = q.count - 1 }

abbrev pub pushed : RunQueue → ℕ → RunQueue
pushed q token = record {
  entries = update q.entries q.tail token;
  head = q.head;
  tail = (q.tail + 1) % max_threads;
  count = q.count + 1;
}

pub dropped-IsRing : (q : RunQueue) → IsRing q → q.count ≢ 0 → IsRing (dropped q)
dropped-IsRing q r some_left = record {
  head_small = omega arith;
  few = omega arith;
  end = omega arith;
}

pub pushed-IsRing :
    (q : RunQueue) (token : ℕ) → IsRing q → q.count < max_threads → IsRing (pushed q token)
pushed-IsRing q token r lt = record {
  head_small = omega arith;
  few = omega arith;
  end = omega arith;
}

-- No other thread than a ready one waits.
pub Absent-Waits :
    {s : Scheduler} (c : ℕ) {caps slots : List ℕ}
    → (s.threads c).state ≢ thread_ready
    → Waits s caps slots
    → Absent c slots
Absent-Waits c ne nobody = tt
Absent-Waits {s} c ne (first_is {i = i} r only w) =
    (λ e. ne (ap (λ (j : ℕ). (s.threads j).state) e ∙ r.state), Absent-Waits c ne w)

-- The first thread that waits, and what is left without it.
pub record First (s : Scheduler) (q : RunQueue) (i : ℕ) (slots : List ℕ) : Type 0 where
  pub rest : ℕ
  pub count : q.count ≡ suc rest
  pub ready : Ready s (q.entries q.head) i
  pub alone : Absent i slots
  pub waits :
      Waits s (tokens (record q { head = (q.head + 1) % max_threads; count = q.count - 1 })) slots

Waits-cons :
    {s : Scheduler} {caps caps' slots : List ℕ} {token i : ℕ}
    → Waits s caps (i ∷ slots)
    → caps ≡ token ∷ caps'
    → Ready s token i × Absent i slots × Waits s caps' slots
Waits-cons {s} {slots = slots} {i = i} (first_is {cap = named} {caps = others} r only w) e = (
  subst (λ (t : ℕ). Ready s t i) (ground arith) r,
  only,
  subst (λ (l : List ℕ). Waits s l slots) (ground arith) w,
)

Waits-empty : {s : Scheduler} {caps slots : List ℕ} {i : ℕ} → Waits s caps (i ∷ slots) → caps ≢ []
Waits-empty (first_is r only w) e = ground arith

pub Waits-First :
    (s : Scheduler) (q : RunQueue) (i : ℕ) (slots : List ℕ)
    → IsRing q
    → Waits s (tokens q) (i ∷ slots)
    → First s q i slots
Waits-First s q i slots r w = elim (Bool-cases (q.count == 0)) [
  | inl zero_left ↦
      let nothing : q.count ≡ 0 = ground arith in
      absurd (Waits-empty w (ap (window q.entries max_threads q.head) nothing))
  | inr some_left ↦
      let some : q.count ≡ suc (q.count - 1) = ground arith in
      let (ready, only, rest) = Waits-cons w (tokens-suc q (q.count - 1) some) in
      let small = r.head_small in
      let place : q.head % max_threads ≡ q.head = omega arith in
      record {
        rest = q.count - 1;
        count = some;
        ready = subst (λ (h : ℕ). Ready s (q.entries h) i) place ready;
        alone = only;
        waits = subst (λ (l : List ℕ). Waits s l slots) (tokens-drop q (q.count - 1) r some) rest;
      }
]

-- The state once the first waiting thread, in slot `i`, is taken.
abbrev pub taken : Scheduler → ℕ → Scheduler
taken s i = set_queued (drop_first s 0) i false

-- Which slot a token names depends on the space and the slots' objects alone.
resolved : CapSpace → (ℕ → ℕ) → ℕ → Result ℕ
resolved space ids token = do
  entry ← Cap.check space token right_read obj_thread
  object ← Object.lookup space.objects entry.object_id true
  slot ← thread_at object.payload
  guard (ids slot == entry.object_id) noent
  ok slot

resolved_slot :
    (s : Scheduler) (token : ℕ)
    → thread_slot_for_cap s token ≡ resolved s.space (λ j. (s.threads j).object_id) token
unfolding thread_slot_for_cap resolved
resolved_slot s token = refl

pub slot_same :
    (s t : Scheduler)
    → t.space ≡ s.space
    → ((j : ℕ) → (t.threads j).object_id ≡ (s.threads j).object_id)
    → (token : ℕ) → thread_slot_for_cap t token ≡ thread_slot_for_cap s token
slot_same s t space ids token =
    resolved_slot t token
    ∙ ap (λ x. resolved x (λ j. (t.threads j).object_id) token) space
    ∙ ap (λ x. resolved s.space x token) (fun_ext ids)
    ∙ sym (resolved_slot s token)

dequeue_from-Ready :
    (s : Scheduler) (n i : ℕ)
    → Ready s ((s.queues 0).entries (s.queues 0).head) i
    → dequeue_from (suc n) 0 s ≡ (some i, taken s i)
unfolding dequeue_from
dequeue_from-Ready s n i r =
    let found =
      slot_same s (drop_first s 0) refl (λ j. refl) ((s.queues 0).entries (s.queues 0).head)
      ∙ r.slot in
    let state = r.state in ground arith

pub dequeue_thread-Ready :
    (s : Scheduler) (n i : ℕ)
    → (s.queues 0).count ≡ suc n
    → Ready s ((s.queues 0).entries (s.queues 0).head) i
    → dequeue_thread s 0 ≡ (some i, taken s i)
unfolding dequeue_thread
dequeue_thread-Ready s n i e r = ap (λ (c : ℕ). dequeue_from c 0 s) e ∙ dequeue_from-Ready s n i r

pub enqueue_thread-room :
    (s : Scheduler) (i : ℕ)
    → (s.threads i).owner_core ≡ 0
    → (s.threads i).queued ≡ false
    → (s.threads i).state ≡ thread_ready
    → leb max_threads (s.queues 0).count ≡ false
    → enqueue_thread s i ≡ (ok tt, append_thread s i)
unfolding enqueue_thread
enqueue_thread-room s i core unqueued ready room = rw (core, unqueued, ready, room) refl
