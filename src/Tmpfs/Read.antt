-- ===== src/Tmpfs/Read.antt =====
-- Reading an open file, and reading after it is closed.
use scdk.Base.{
  ℕ, ◌+◌, ◌-◌, ◌≤◌, ◌≡◌, ◌≢◌, ◌⊎◌, refl, sym, ◌∙◌, ap, subst, inl, inr, true, false, not, ◌||◌,
  arith, ltb, ◌==◌, if◌then◌else◌, Option, none, some, Bool-cases, List, update, update_self, min,
}
use scdk.Status.{Status, ok, err, inval, noent, Result-cases}
use scdk.Bytes.Move.{copied, memcpy-copied}
use scdk.Initrd
use scdk.Initrd.{Entry}
use scdk.Initrd.Bounds.{bind-eq-ok}
use scdk.Object
use scdk.Object.{Object, obj_file}
use scdk.Cap
use scdk.Cap.{CapEntry, right_read}
use scdk.Kernel.{Kernel, Message}
use scdk.Tmpfs.{
  handle_open, handle_read, handle_close, read_file, path_from_message, slot_for_cap, open_slot,
  file_at,
}
use scdk.Tmpfs.Open.{Answered, handle_open-Answered, slot_for_cap-Opened}

ok_inj : {A : Type 0} {a b : A} → ok a ≡ ok b → a ≡ b
ok_inj {A} {a} h = ap (λ r. elim r [ ok x ↦ x | err _ ↦ a ]) h

abbrev pub amount : Message → Entry → ℕ
amount request e = min request.arg3 (e.size - request.arg1)

-- What a reply to a read of file `e` says and leaves.
pub record Delivered (k : Kernel) (request : Message) (e : Entry) (r : Status × Message × Kernel)
    : Type 0 where
  pub status : r.0 ≡ ok tt
  pub count : r.1.arg0 ≡ amount request e
  pub bytes :
      (a : ℕ)
      → r.2.memory a ≡ copied k.memory request.arg2 (e.start + request.arg1) (amount request e) a
  pub rest : r.2 ≡ record k { memory = r.2.memory }

read_file-Delivered :
    (k : Kernel) (request : Message) (e : Entry)
    → request.arg3 ≢ 0
    → request.arg1 ≤ e.size
    → (request.arg2 ≤ e.start + request.arg1)
      ⊎ (e.start + request.arg1 + amount request e ≤ request.arg2)
    → Delivered k request e (read_file k request e)
unfolding read_file
read_file-Delivered k request e some_bytes within apart =
    let asks : (request.arg3 == 0) ≡ false = ground arith in
    let inside : ltb e.size request.arg1 ≡ false = ground arith in
    let all : (if ltb request.arg3 (e.size - request.arg1)
          then request.arg3
          else e.size - request.arg1)
        ≡ amount request e =
      ground arith in
    rw (asks, inside, all)
      (record {
        status = refl;
        count = refl;
        bytes = λ a.
            memcpy-copied k.memory request.arg2 (e.start + request.arg1) (amount request e) a apart;
        rest = refl;
      })

memory-Answered :
    {k : Kernel} {msg msg' : Message} {k' : Kernel} → Answered k msg msg' k' → k'.memory ≡ k.memory
memory-Answered o = ap (λ (j : Kernel). j.memory) o.file.filled

handle_read-slot :
    (k : Kernel) (request : Message) (i : ℕ)
    → request.arg2 ≢ 0
    → slot_for_cap k request.arg0 ≡ ok i
    → handle_read k request ≡ read_file k request (k.files i).backing
unfolding handle_read
handle_read-slot k request i some_buffer found =
    let buffer : (request.arg2 == 0) ≡ false = ground arith in
    rw (buffer, handle_read) (rw found refl)

-- Open a path, under which the archive holds file `e`. Then a read with the token of the reply, for
-- some bytes, to a buffer that is not null, from an offset within the file, succeeds; its reply
-- says the number of bytes asked for, or of those left if there are fewer; and memory afterwards is
-- memory as it was, with that many bytes of the file copied to the buffer, if the buffer is not
-- within what is copied.
pub read-handle_open :
    (k : Kernel) (msg : Message) {msg' : Message} {k' : Kernel} (path : List ℕ) (e : Entry)
    (request : Message)
    → path_from_message k msg ≡ ok path
    → Initrd.find k.archive path true ≡ ok e
    → handle_open k msg ≡ (ok tt, msg', k')
    → request.arg0 ≡ msg'.arg0
    → request.arg2 ≢ 0
    → request.arg3 ≢ 0
    → request.arg1 ≤ e.size
    → (request.arg2 ≤ e.start + request.arg1)
      ⊎ (e.start + request.arg1 + amount request e ≤ request.arg2)
    → let (status, reply, after) = handle_read k' request in
      (status ≡ ok tt)
      × (reply.arg0 ≡ amount request e)
      × ((a : ℕ)
          → after.memory a
            ≡ copied k.memory request.arg2 (e.start + request.arg1) (amount request e) a)
read-handle_open k msg {msg'} {k'} path e request named found h token some_buffer some_bytes within
      apart =
    let o = handle_open-Answered k msg h in
    let path_same : o.path ≡ path = ok_inj (sym o.named ∙ named) in
    let same : o.backing ≡ e =
      ok_inj (sym o.found ∙ ap (λ p. Initrd.find k.archive p true) path_same ∙ found) in
    let (slot, kept) = slot_for_cap-Opened o.file in
    let go : handle_read k' request ≡ read_file k' request e =
      handle_read-slot k' request o.slot some_buffer (ap (slot_for_cap k') token ∙ slot)
      ∙ ap (read_file k' request) (kept ∙ same) in
    let d =
      subst (Delivered k' request e) (sym go)
        (read_file-Delivered k' request e some_bytes within apart) in
    (
      d.status,
      d.count,
      λ a.
          d.bytes a
          ∙ ap (λ m. copied m request.arg2 (e.start + request.arg1) (amount request e) a)
              (memory-Answered o),
    )

-- The parts of a request's token that names an open file.
slot_for_cap-eq-ok :
    (k : Kernel) (cap : ℕ) {i : ℕ}
    → slot_for_cap k cap ≡ ok i
    → (entry : CapEntry) × (object : Object) × (Cap.check k.space cap right_read obj_file
        ≡ ok entry)
      × (Object.lookup k.space.objects entry.object_id true ≡ ok object)
      × (open_slot k entry.object_id (file_at object.payload) ≡ ok i)
unfolding slot_for_cap
slot_for_cap-eq-ok k cap h =
    let (entry, e1, h1) = bind-eq-ok (Cap.check k.space cap right_read obj_file) _ h in
    let (object, e2, h2) = bind-eq-ok (Object.lookup k.space.objects entry.object_id true) _ h1 in
    (entry, object, e1, e2, h2)

open_slot-eq-ok :
    (k : Kernel) (id : ℕ) (o : Option ℕ) {i : ℕ}
    → open_slot k id o ≡ ok i
    → (o ≡ some i) × ((k.files i).object_id ≡ id) × ((k.files i).is_open ≡ true)
open_slot-eq-ok k id none h = absurd (ground arith)
open_slot-eq-ok k id (some j) {i} h =
    elim (Bool-cases (not ((k.files j).object_id == id) || not (k.files j).is_open)) [
      | inl bad ↦ absurd (ground arith)
      | inr good ↦ let same : j ≡ i = ground arith in (ap some same, ground arith, ground arith)
    ]

abbrev closed : Kernel → ℕ → Kernel
closed k i = record k { files = update k.files i (record (k.files i) { is_open = false }) }

slot_for_cap-closed :
    (k : Kernel) (cap i : ℕ) → slot_for_cap k cap ≡ ok i → slot_for_cap (closed k i) cap ≡ err noent
unfolding slot_for_cap
slot_for_cap-closed k cap i h =
    let (entry, object, checked, found, last) = slot_for_cap-eq-ok k cap h in
    let (place, named, still) = open_slot-eq-ok k entry.object_id (file_at object.payload) last in
    let mine : ((k.files i).object_id == entry.object_id) ≡ true = ground arith in
    let shut : open_slot (closed k i) entry.object_id (some i) ≡ err noent =
      rw (update_self k.files i (record (k.files i) { is_open = false })) (rw mine refl) in
    rw (checked, slot_for_cap) (rw found (rw place shut))

handle_close-slot :
    (k : Kernel) (msg : Message) (i : ℕ)
    → slot_for_cap k msg.arg0 ≡ ok i
    → handle_close k msg ≡ (ok tt, msg, closed k i)
unfolding handle_close
handle_close-slot k msg i found = rw (found, handle_close) refl

-- Once a file is closed its token opens nothing. A read with it is refused with SCDK_ERR_NOENT, or
-- with SCDK_ERR_INVAL if the read's buffer is null, whatever else it asks; any second close with it
-- is refused with SCDK_ERR_NOENT; and both leave the kernel and the message as they are.
pub read-handle_close :
    (k : Kernel) (msg : Message) {msg' : Message} {k' : Kernel} (request again : Message)
    → handle_close k msg ≡ (ok tt, msg', k')
    → request.arg0 ≡ msg.arg0
    → again.arg0 ≡ msg.arg0
    → (handle_read k' request ≡ (err (if request.arg2 == 0 then inval else noent), request, k'))
      × (handle_close k' again ≡ (err noent, again, k'))
unfolding handle_close handle_read
read-handle_close k msg {msg'} {k'} request again h token same =
    elim (Result-cases (slot_for_cap k msg.arg0)) [
      | inr (x, bad) ↦ absurd (ground arith)
      | inl (i, found) ↦
          let after : closed k i ≡ k' =
            ap (λ (r : Status × Message × Kernel). r.2)
              (sym (handle_close-slot k msg i found) ∙ h) in
          let gone : slot_for_cap k' msg.arg0 ≡ err noent =
            subst (λ (j : Kernel). slot_for_cap j msg.arg0 ≡ err noent) after
              (slot_for_cap-closed k msg.arg0 i found) in
          let unread : slot_for_cap k' request.arg0 ≡ err noent =
            ap (slot_for_cap k') token ∙ gone in
          let unclosed : slot_for_cap k' again.arg0 ≡ err noent =
            ap (slot_for_cap k') same ∙ gone in
          (
            elim (Bool-cases (request.arg2 == 0)) [
              | inl null_buffer ↦ rw (null_buffer, handle_read) refl
              | inr buffer ↦ rw (buffer, handle_read) (rw (unread, handle_read) refl)
            ],
            rw (unclosed, handle_close) refl,
          )
    ]
