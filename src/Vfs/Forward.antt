-- ===== src/Vfs/Forward.antt =====
-- A request through the router, against the archive's service itself.
use scdk.Base.{
  ℕ, suc, ◌≡◌, ◌≢◌, refl, ◌∙◌, ap, Bool, true, false, not, ◌&&◌, ◌||◌, arith, ◌==◌, if◌then◌else◌,
  some,
}
use scdk.Status.{Status, ok, err, status_word, inval, noent, notsup}
use scdk.Cap.{CapEntry}
use scdk.Kernel.{Kernel, Message}
use scdk.Endpoint.{Handlers, resolve}
use scdk.Endpoint.Call.{call-resolved}
use scdk.Initrd.{slash}
use scdk.Message.{msg_open, msg_close, msg_read, msg_stat, msg_listdir, service_vfs}
use scdk.Tmpfs
use scdk.Tmpfs.{tmpfs_handler, service_tmpfs}
use scdk.Vfs.{forward, returned, handler, handle_open, file_handlers, path_under_root}

-- The router's endpoint of the archive works: its token leads to the archive's handler.
pub record Mounted (k : Kernel) : Type 0 where
  pub nonzero : k.vfs_root ≢ 0
  pub entry : CapEntry
  pub context : ℕ
  pub leads :
      resolve k k.vfs_root
      ≡ ok (
        entry,
        some (record { object_id = entry.object_id; handler = tmpfs_handler; context = context }),
      )

-- The request as the archive's service gets it.
abbrev pub routed : {k : Kernel} → Mounted k → Message → Message
routed m msg = record msg { target = m.entry.object_id }

-- A request that names an absolute path, or one that names a token.
abbrev pub IsRouted : Kernel → Message → Type 0
IsRouted k msg =
    (if msg.type == msg_open || (msg.type == msg_stat || msg.type == msg_listdir)
      then path_under_root k msg
      else msg.type == msg_read || msg.type == msg_close)
    ≡ true

-- The tests of the router's handler, in the order of the code.
chosen :
    {A : Type 0} (opens asks holds null absolute : Bool) (forwards invalid missing unknown : A)
    → (if opens || asks then not null && absolute else holds) ≡ true
    → (if opens
        then (if null then invalid else if not (not null && absolute) then missing else forwards)
        else if asks
        then (if null || not (not null && absolute) then missing else forwards)
        else if holds
        then forwards
        else unknown)
      ≡ forwards
chosen opens asks holds null absolute f i m u h = ground arith

module _ (others : Handlers) (depth : ℕ) (k : Kernel) (m : Mounted k) (msg : Message) where
  abbrev served : Status × Message × Kernel
  served =
      let (status, answer, k') = Tmpfs.handler (routed m msg) k in
      (status, record answer { target = service_vfs; status = status_word status }, k')

  forward-Mounted : forward (file_handlers others (suc depth)) k msg ≡ served
  unfolding forward file_handlers
  forward-Mounted =
      let mounted : (k.vfs_root == 0) ≡ false = let n = m.nonzero in ground arith in
      rw (mounted, forward)
        (ap returned (
          call-resolved (file_handlers others (suc depth)) k k.vfs_root
            (record msg { target = service_tmpfs }) m.entry
            (record { object_id = m.entry.object_id; handler = tmpfs_handler; context = m.context })
            m.leads refl (omega arith)))

  -- With the archive mounted, the router answers every request that it forwards (to open, ask about
  -- or list an absolute path, to read, or to close) just as the archive's service does: with the
  -- same status, which also stands in the message, the same reply, and the same effects. Only the
  -- reply's target is the router's.
  pub handler-Mounted : IsRouted k msg → handler (file_handlers others (suc depth)) msg k ≡ served
  unfolding handler handle_open
  handler-Mounted routed =
      chosen (msg.type == msg_open) (msg.type == msg_stat || msg.type == msg_listdir)
        (msg.type == msg_read || msg.type == msg_close) (msg.arg0 == 0) (k.memory msg.arg0 == slash)
        (forward (file_handlers others (suc depth)) k msg) (err inval, msg, k) (err noent, msg, k)
        (err notsup, msg, k) routed
      ∙ forward-Mounted
