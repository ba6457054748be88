-- ===== src/Ring/Trace.antt =====
-- Any sequence of data-plane calls on one ring, against two bounded queues.
use scdk.Base.{ℕ, ◌≡◌, refl, List, [], ◌∷◌, arith}
use scdk.Status.{Result, Status}
use scdk.Kernel.{Ring, RingDesc, Completion}
use scdk.Ring.{submit_to, consume_from, complete_to, poll_from}
use scdk.Ring.Queue.{push, pop}
use scdk.Ring.Refine.{
  IsValid, submissions, completions, submit_refines, consume_refines, complete_refines,
  poll_refines,
}

pub data Op : Type 0 where
  submits : RingDesc → Op
  consumes : Op
  completes : Completion → Op
  polls : Op

pub data Reply : Type 0 where
  status : Status → Reply
  desc : Result RingDesc → Reply
  completion : Result Completion → Reply

unfoldable pub run : Ring → List Op → List Reply
run r [] = []
run r (submits d ∷ ops) = let (s, r') = submit_to r d in status s ∷ run r' ops
run r (consumes ∷ ops) = let (d, r') = consume_from r in desc d ∷ run r' ops
run r (completes c ∷ ops) = let (s, r') = complete_to r c in status s ∷ run r' ops
run r (polls ∷ ops) = let (c, r') = poll_from r in completion c ∷ run r' ops

-- The specification: submissions in one bounded queue, completions in another.
unfoldable pub run_spec : ℕ → List RingDesc → List Completion → List Op → List Reply
run_spec cap sq cq [] = []
run_spec cap sq cq (submits d ∷ ops) =
    let (s, sq') = push cap sq d in status s ∷ run_spec cap sq' cq ops
run_spec cap sq cq (consumes ∷ ops) = let (d, sq') = pop sq in desc d ∷ run_spec cap sq' cq ops
run_spec cap sq cq (completes c ∷ ops) =
    let (s, cq') = push cap cq c in status s ∷ run_spec cap sq cq' ops
run_spec cap sq cq (polls ∷ ops) = let (c, cq') = pop cq in completion c ∷ run_spec cap sq cq' ops

entries-submit_to : (r : Ring) (d : RingDesc) → (submit_to r d).1.entries ≡ r.entries
unfolding submit_to
entries-submit_to r d = ground arith

entries-consume_from : (r : Ring) → (consume_from r).1.entries ≡ r.entries
unfolding consume_from
entries-consume_from r = ground arith

entries-complete_to : (r : Ring) (c : Completion) → (complete_to r c).1.entries ≡ r.entries
unfolding complete_to
entries-complete_to r c = ground arith

entries-poll_from : (r : Ring) → (poll_from r).1.entries ≡ r.entries
unfolding poll_from
entries-poll_from r = ground arith

-- No sequence of data-plane calls tells a valid ring, whose size divides 2 ^ 32 and whose counters
-- are at most its size apart, from two bounded queues, though the 32-bit counters wrap.
pub run_refines :
    (r : Ring) (ops : List Op)
    → IsValid r
    → run r ops ≡ run_spec r.entries (submissions r) (completions r) ops
unfolding run run_spec
run_refines r [] v = refl
run_refines r (submits d ∷ ops) v =
    let s = submit_refines r d v in
    rw (run_refines (submit_to r d).1 ops s.2, ← s.0, s.1, entries-submit_to)
run_refines r (consumes ∷ ops) v =
    let s = consume_refines r v in
    rw (run_refines (consume_from r).1 ops s.2, ← s.0, s.1, entries-consume_from)
run_refines r (completes c ∷ ops) v =
    let s = complete_refines r c v in
    rw (run_refines (complete_to r c).1 ops s.2, ← s.0, s.1, entries-complete_to)
run_refines r (polls ∷ ops) v =
    let s = poll_refines r v in
    rw (run_refines (poll_from r).1 ops s.2, ← s.0, s.1, entries-poll_from)
