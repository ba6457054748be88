-- ===== src/Tmpfs/Open.antt =====
-- What opening a file gives: a token that stands for the file, and nothing taken from others.
use scdk.Base.{
  ℕ, ◌<◌, ◌≡◌, refl, sym, ◌∙◌, ap, subst, inl, inr, true, false, not, arith, ◌==◌, Option-cases,
  List, update, update_self, find_slot, find_slot-eq-some,
}
use scdk.Status.{Result, ok, err, Result-cases}
use scdk.Initrd
use scdk.Initrd.{Entry}
use scdk.Object.{element, open_files, obj_file, boot_core}
use scdk.Cap.{right_read}
use scdk.Cap.Growth.{Grows, Minted, check-Minted, object-Minted, new_object-cases}
use scdk.Kernel.{Kernel, Message, OpenFile}
use scdk.Tmpfs.{max_open_files, open_file, opened, handle_open, path_from_message, slot_for_cap}

-- A successful opening: a new object with a token to read it, and the file its payload points to.
pub record Opened (k : Kernel) (i : ℕ) (backing : Entry) (cap : ℕ) (k' : Kernel) : Type 0 where
  pub id : ℕ
  pub minted : Minted obj_file boot_core (element open_files i) right_read id cap k'.space
  pub grows : Grows k.space k'.space
  pub filled : k' ≡ record k {
    space = k'.space;
    files =
        update k.files i (record { object_id = id; cap = cap; backing = backing; is_open = true });
  }

abbrev Outcome : Kernel → ℕ → Entry → Result ℕ × (ℕ → Kernel) → Type 0
Outcome k i backing (err e, k') = Grows k.space (k' 0).space
Outcome k i backing (ok cap, k') = Opened k i backing cap (k' cap)

open_file-Outcome :
    (k : Kernel) (i : ℕ) (backing : Entry) → Outcome k i backing (open_file k i backing)
unfolding open_file
open_file-Outcome k i backing =
    new_object-cases _ _ _ k.space obj_file boot_core (element open_files i) right_read
      (Outcome k i backing) (λ e t g. g)
      (λ id cap t g m. record { id = id; minted = m; grows = g; filled = refl }) (λ e id t g. g)

-- The token stands for the slot.
pub slot_for_cap-Opened :
    {k : Kernel} {i : ℕ} {backing : Entry} {cap : ℕ} {k' : Kernel}
    → Opened k i backing cap k'
    → (slot_for_cap k' cap ≡ ok i) × ((k'.files i).backing ≡ backing)
unfolding slot_for_cap
slot_for_cap-Opened {k} {i} {backing} {cap} {k'} o =
    let m = o.minted in
    let slot : k'.files i
        ≡ record { object_id = o.id; cap = cap; backing = backing; is_open = true } =
      ap (λ (j : Kernel). j.files i) o.filled ∙ update_self k.files i _ in
    let mine : (o.id == m.object.id) ≡ true = ground (arith, m.named) in
    (
      rw (check-Minted right_read m (omega arith) refl, slot_for_cap)
          (rw (object-Minted m) (rw m.payload (rw slot (rw mine refl)))),
      ap (λ (f : OpenFile). f.backing) slot,
    )

-- What a successful request to open a file has done.
pub record Answered (k : Kernel) (msg msg' : Message) (k' : Kernel) : Type 0 where
  pub path : List ℕ
  pub backing : Entry
  pub slot : ℕ
  pub named : path_from_message k msg ≡ ok path
  pub found : Initrd.find k.archive path true ≡ ok backing
  pub in_table : slot < max_open_files
  pub was_free : (k.files slot).is_open ≡ false
  pub file : Opened k slot backing msg'.arg0 k'
  pub size : msg'.arg1 ≡ backing.size

opened-Opened :
    (k : Kernel) (i : ℕ) (msg : Message) (backing : Entry) (r : Result ℕ × (ℕ → Kernel))
    {msg' : Message} {k' : Kernel}
    → Outcome k i backing r
    → opened msg backing r ≡ (ok tt, msg', k')
    → Opened k i backing msg'.arg0 k' × (msg'.arg1 ≡ backing.size)
opened-Opened k i msg backing (err e, kf) o h = absurd (ground arith)
opened-Opened k i msg backing (ok cap, kf) {msg'} {k'} o h =
    let answer : record msg { arg0 = cap; arg1 = backing.size } ≡ msg' = ap (λ r. r.1) h in
    let after : kf cap ≡ k' = ap (λ r. r.2) h in
    (
      subst (λ c. Opened k i backing c k') (ap (λ (m : Message). m.arg0) answer)
          (subst (Opened k i backing cap) after o),
      sym (ap (λ (m : Message). m.arg1) answer),
    )

pub handle_open-Answered :
    (k : Kernel) (msg : Message) {msg' : Message} {k' : Kernel}
    → handle_open k msg ≡ (ok tt, msg', k')
    → Answered k msg msg' k'
unfolding handle_open
handle_open-Answered k msg {msg'} {k'} h = elim (Result-cases (path_from_message k msg)) [
  | inr (x, bad) ↦ absurd (ground arith)
  | inl (path, named) ↦ elim (Result-cases (Initrd.find k.archive path true)) [
    | inr (x, bad) ↦ absurd (ground arith)
    | inl (backing, found) ↦
        elim (Option-cases (find_slot (λ i. not (k.files i).is_open) max_open_files 0)) [
          | inl full ↦ absurd (ground arith)
          | inr (i, free) ↦
              let r = find_slot-eq-some (λ i. not (k.files i).is_open) max_open_files 0 free in
              let go : handle_open k msg ≡ opened msg backing (open_file k i backing) =
                rw (named, handle_open) (rw found (rw free refl)) in
              let o =
                opened-Opened k i msg backing (open_file k i backing)
                  (open_file-Outcome k i backing) (sym go ∙ h) in
              record {
                path = path;
                backing = backing;
                slot = i;
                named = named;
                found = found;
                in_table = omega arith;
                was_free = ground arith;
                file = o.0;
                size = o.1;
              }
        ]
  ]
]
