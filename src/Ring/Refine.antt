-- ===== src/Ring/Refine.antt =====
-- A ring whose size divides 2 ^ 32 is a pair of bounded queues, for any counters, wrapped or not.
use scdk.Base.{
  ◌%◌, ◌^◌, ◌≤◌, ◌<◌, ◌≡◌, ◌≢◌, refl, sym, ◌∙◌, ap, List, length, arith, leb, ◌==◌, Bool-cases, inl,
  inr,
}
use scdk.Status.{ok}
use scdk.Kernel.{Ring, RingDesc, Completion, ring_max_entries}
use scdk.Ring.{queue_count, submit_to, consume_from, complete_to, poll_from}
use scdk.Ring.Window.{length-window}
use scdk.Ring.Queue.{
  push, pop, Queued, queue, push-full, push-room, queue-push, queue-pop, push-Queued, pop-Queued,
  pop-empty,
}

pub record IsValid (r : Ring) : Type 0 where
  pub some_entries : 0 < r.entries
  pub few_entries : r.entries ≤ ring_max_entries
  pub divides : 2 ^ 32 % r.entries ≡ 0
  pub submits : Queued r.entries r.submit_head r.submit_tail
  pub completes : Queued r.entries r.complete_head r.complete_tail

abbrev pub submissions : Ring → List RingDesc
submissions r = queue r.sq r.entries r.submit_head r.submit_tail

abbrev pub completions : Ring → List Completion
completions r = queue r.cq r.entries r.complete_head r.complete_tail

-- Submitting is pushing to the queue of submissions: `busy` at `entries` of them, else the
-- descriptor goes to the end. The completions stay, and the ring stays valid.
pub submit_refines :
    (r : Ring) (desc : RingDesc)
    → IsValid r
    → let (s, r') = submit_to r desc in
      ((s, submissions r') ≡ push r.entries (submissions r) desc)
      × (completions r' ≡ completions r)
      × IsValid r'
unfolding submit_to
submit_refines r desc v = elim (Bool-cases (leb e (queue_count h t))) [
  | inl full ↦ rw full (sym (push-full e _ (submissions r) desc long full), refl, v)
  | inr room ↦
      let lt : queue_count h t < e = ground arith in
      rw room (
        ap (λ q. (ok tt, q)) (queue-push r.sq e h t v.some_entries few d v.submits desc lt)
            ∙ sym (push-room e _ (submissions r) desc long room),
        refl,
        record {
          some_entries = v.some_entries;
          few_entries = few;
          divides = d;
          submits = push-Queued r.sq e h t v.some_entries few d v.submits lt;
          completes = v.completes;
        },
      )
]
  where
    open r use {entries as e, submit_head as h, submit_tail as t}
    open v use {few_entries as few, divides as d}

    long : length (submissions r) ≡ queue_count h t
    long = length-window r.sq e h (queue_count h t)

-- Completing is pushing to the queue of completions, and leaves the completions.
pub complete_refines :
    (r : Ring) (completion : Completion)
    → IsValid r
    → let (s, r') = complete_to r completion in
      ((s, completions r') ≡ push r.entries (completions r) completion)
      × (submissions r' ≡ submissions r)
      × IsValid r'
unfolding complete_to
complete_refines r completion v = elim (Bool-cases (leb e (queue_count h t))) [
  | inl full ↦ rw full (sym (push-full e _ (completions r) completion long full), refl, v)
  | inr room ↦
      let lt : queue_count h t < e = ground arith in
      rw room (
        ap (λ q. (ok tt, q)) (queue-push r.cq e h t v.some_entries few d v.completes completion lt)
            ∙ sym (push-room e _ (completions r) completion long room),
        refl,
        record {
          some_entries = v.some_entries;
          few_entries = few;
          divides = d;
          completes = push-Queued r.cq e h t v.some_entries few d v.completes lt;
          submits = v.submits;
        },
      )
]
  where
    open r use {entries as e, complete_head as h, complete_tail as t}
    open v use {few_entries as few, divides as d}

    long : length (completions r) ≡ queue_count h t
    long = length-window r.cq e h (queue_count h t)

-- Consuming is popping the oldest submission, `noent` if there is none. The completions stay.
pub consume_refines :
    (r : Ring)
    → IsValid r
    → let (s, r') = consume_from r in
      ((s, submissions r') ≡ pop (submissions r)) × (completions r' ≡ completions r) × IsValid r'
unfolding consume_from pop
consume_refines r v = elim (Bool-cases (h == t)) [
  | inl none_left ↦
      rw none_left (sym (pop-empty r.sq e h t v.submits.head_small (ground arith)), refl, v)
  | inr some_left ↦
      let ne : h ≢ t = ground arith in
      rw some_left (
        sym (ap pop (queue-pop r.sq e h t v.some_entries few d v.submits ne)),
        refl,
        record {
          some_entries = v.some_entries;
          few_entries = few;
          divides = d;
          submits = pop-Queued r.sq e h t v.some_entries few d v.submits ne;
          completes = v.completes;
        },
      )
]
  where
    open r use {entries as e, submit_head as h, submit_tail as t}
    open v use {few_entries as few, divides as d}

-- Polling is popping the oldest completion, `noent` if there is none. The submissions stay.
pub poll_refines :
    (r : Ring)
    → IsValid r
    → let (s, r') = poll_from r in
      ((s, completions r') ≡ pop (completions r)) × (submissions r' ≡ submissions r) × IsValid r'
unfolding poll_from pop
poll_refines r v = elim (Bool-cases (h == t)) [
  | inl none_left ↦
      rw none_left (sym (pop-empty r.cq e h t v.completes.head_small (ground arith)), refl, v)
  | inr some_left ↦
      let ne : h ≢ t = ground arith in
      rw some_left (
        sym (ap pop (queue-pop r.cq e h t v.some_entries few d v.completes ne)),
        refl,
        record {
          some_entries = v.some_entries;
          few_entries = few;
          divides = d;
          completes = pop-Queued r.cq e h t v.some_entries few d v.completes ne;
          submits = v.submits;
        },
      )
]
  where
    open r use {entries as e, complete_head as h, complete_tail as t}
    open v use {few_entries as few, divides as d}
