-- ===== src/Ring/Wrap.antt =====
-- A ring whose size does not divide 2 ^ 32, where the counters wrap.
use scdk.Base.{◌-◌, ◌%◌, ◌^◌, ◌<◌, ◌≡◌, arith}
use scdk.Status.{ok}
use scdk.Kernel.{Ring, RingDesc}
use scdk.Ring.{submit_to, consume_from, queue_count}

-- In a ring of more than one place whose size divides 2 ^ 32 - 1 the index starts anew one step early.
-- With one submission pending at the last counter value, the next one is accepted and takes its place:
-- what is consumed is the new descriptor, and the old one is lost.
pub submit_overwrites :
    (r : Ring) (desc : RingDesc)
    → 1 < r.entries
    → (2 ^ 32 - 1) % r.entries ≡ 0
    → r.submit_head ≡ 2 ^ 32 - 1
    → r.submit_tail ≡ 0
    → (queue_count r.submit_head r.submit_tail ≡ 1)
      × ((submit_to r desc).0 ≡ ok tt)
      × ((consume_from (submit_to r desc).1).0 ≡ ok desc)
unfolding submit_to consume_from
submit_overwrites r desc many odd h t = ground arith
