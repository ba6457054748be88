-- ===== src/UserIpc/Guard.antt =====
-- What a user's message passes before a handler sees it.
use scdk.Base.{
  ℕ, ◌+◌, ◌-◌, ◌≤◌, ◌≡◌, ◌⊎◌, inl, inr, refl, sym, ◌∙◌, ap, true, false, ◌==◌, Bool-cases, List, [],
  ◌∷◌, ◌++◌, length, length-append, arith, Option, subst,
}
use scdk.Status.{Error, ok, err, Result-cases}
use scdk.Object.{obj_endpoint}
use scdk.Cap
use scdk.Cap.{CapEntry, right_send}
use scdk.Kernel.{Kernel, Message}
use scdk.Endpoint.{service}
use scdk.UserSpace.{UserSpace, validate_range, copy_from}
use scdk.UserSpace.Validate.{copy_from-eq-ok}
use scdk.Message.{msg_listdir, msg_read, service_vfs}
use scdk.UserIpc.{
  conclude, passes, Services, Answer, Arranged, Fault, refused, ready, message_of, message_size,
  buffer_size, check_target, takes_buffer, read_buffer, arrange, send, endpoint_call,
}

-- What a message passed that a handler sees: the token's right to send, its own range in user memory,
-- and the service that it names.
pub record Sent (services : Services) (buffer : ℕ) (u : UserSpace) (k : Kernel)
    (cap user_message : ℕ) : Type 0 where
  pub entry : CapEntry
  pub allowed : Cap.check k.space cap right_send obj_endpoint ≡ ok entry
  pub bytes : List ℕ
  pub copied : copy_from u user_message true message_size ≡ ok bytes
  pub named : service k (message_of bytes).target true ≡ ok cap
  pub message : Message
  pub payload : List ℕ
  pub arranged : arrange u buffer (message_of bytes) ≡ ready message payload
  pub sends :
      endpoint_call services buffer u k cap user_message
      ≡ send services u k cap user_message message payload

Arranged-cases :
    (a : Arranged)
    → ((e : Error) × (f : Option Fault) × (m : Message) × (a ≡ refused e f m))
      ⊎ ((m : Message) × (bytes : List ℕ) × (a ≡ ready m bytes))
Arranged-cases (refused e f m) = inl (e, f, m, refl)
Arranged-cases (ready m bytes) = inr (m, bytes, refl)

check_target-eq-ok :
    (k : Kernel) (cap : ℕ) (msg : Message)
    → check_target k cap msg ≡ ok tt
    → service k msg.target true ≡ ok cap
unfolding check_target
check_target-eq-ok k cap msg h = elim (Result-cases (service k msg.target true)) [
  | inr (e, bad) ↦ absurd (ground arith)
  | inl (endpoint, found) ↦ ground arith
]

length-read_buffer :
    (u : UserSpace) (msg : Message) {bytes : List ℕ}
    → read_buffer u msg ≡ ok bytes
    → length bytes ≤ buffer_size
unfolding read_buffer
length-read_buffer u msg {bytes} h = elim (Result-cases (copy_from u msg.arg0 true msg.arg1)) [
  | inr (e, bad) ↦ absurd (ground arith)
  | inl (read, copied) ↦
      let long : length (read ++ (0 ∷ [])) ≡ msg.arg1 + 1 =
        length-append read (0 ∷ [])
        ∙ ap (λ (n : ℕ). n + 1) ((copy_from-eq-ok u msg.arg0 msg.arg1 true copied).2) in
      let same : read ++ (0 ∷ []) ≡ bytes = ground arith in
      let small : msg.arg1 ≤ buffer_size - 1 = ground arith in
      subst (λ (l : List ℕ). length l ≤ buffer_size) same (omega (arith, long))
]

plain_payload :
    (u : UserSpace) (buffer : ℕ) (msg : Message) {m : Message} {payload : List ℕ}
    → takes_buffer msg.type ≡ false
    → arrange u buffer msg ≡ ready m payload
    → [] ≡ payload
unfolding arrange
plain_payload u buffer msg plain h = elim (Bool-cases (msg.type == msg_read)) [
  | inr other ↦ elim (Bool-cases (passes msg.type)) [
    | inr refused_type ↦ absurd (ground arith)
    | inl passed ↦ ground arith
  ]
  | inl read ↦ elim (Bool-cases (msg.target == service_vfs)) [
    | inr other ↦ ground arith
    | inl vfs ↦ elim (Result-cases (validate_range u msg.arg2 msg.arg3 true)) [
      | inr (e, bad) ↦ absurd (ground arith)
      | inl (t, good) ↦ ground arith
    ]
  ]
]

-- The bytes that a message brings for a handler fit in the kernel's buffer, their end mark included.
arrange-ready :
    (u : UserSpace) (buffer : ℕ) (msg : Message) {m : Message} {payload : List ℕ}
    → arrange u buffer msg ≡ ready m payload
    → length payload ≤ buffer_size
unfolding arrange
arrange-ready u buffer msg {m} {payload} h = elim (Bool-cases (takes_buffer msg.type)) [
  | inl takes ↦ elim (Result-cases (read_buffer u msg)) [
    | inr (e, bad) ↦ absurd (ground arith)
    | inl (bytes, read) ↦
        let fits = length-read_buffer u msg read in
        elim (Bool-cases (msg.type == msg_listdir)) [
          | inr other ↦
              let same : bytes ≡ payload = ground arith in
              subst (λ (l : List ℕ). length l ≤ buffer_size) same fits
          | inl listdir ↦ elim (Result-cases (validate_range u msg.arg2 msg.arg3 true)) [
            | inr (e, bad) ↦ absurd (ground arith)
            | inl (t, good) ↦
                let same : bytes ≡ payload = ground arith in
                subst (λ (l : List ℕ). length l ≤ buffer_size) same fits
          ]
        ]
  ]
  | inr plain ↦
      let nothing : [] ≡ payload = plain_payload u buffer msg plain h in
      subst (λ (l : List ℕ). length l ≤ buffer_size) nothing (omega arith)
]

-- The call once its checks have passed.
endpoint_call-concludes :
    (services : Services) (buffer : ℕ) (u : UserSpace) (k : Kernel) (token user_message : ℕ)
    {entry : CapEntry} {bytes : List ℕ}
    → Cap.check k.space token right_send obj_endpoint ≡ ok entry
    → copy_from u user_message true message_size ≡ ok bytes
    → check_target k token (message_of bytes) ≡ ok tt
    → endpoint_call services buffer u k token user_message
      ≡ conclude services u k token user_message (arrange u buffer (message_of bytes))
unfolding endpoint_call
endpoint_call-concludes services buffer u k token user_message a b c =
    rw (a, endpoint_call) (rw b (rw c refl))

-- Each way to be refused.
Refused : Answer → Kernel → Type 0
Refused a k = (e : Error) × (a.status ≡ err e) × (a.kernel ≡ k)

conclude-Refused :
    (services : Services) (u : UserSpace) (k : Kernel) (token user_message : ℕ) (e : Error)
    (f : Option Fault) (m : Message)
    → Refused (conclude services u k token user_message (refused e f m)) k
unfolding conclude Refused
conclude-Refused services u k token user_message e f m = (e, refl, refl)

conclude-ready :
    (services : Services) (u : UserSpace) (k : Kernel) (token user_message : ℕ) (m : Message)
    (payload : List ℕ)
    → conclude services u k token user_message (ready m payload)
      ≡ send services u k token user_message m payload
unfolding conclude
conclude-ready services u k token user_message m payload = refl

-- A message system call fails and leaves the kernel as it was, or what it sends has passed every
-- check: the token may send, the message was the user's to read, and the service that it names is
-- the endpoint.
pub endpoint_call-cases :
    (services : Services) (buffer : ℕ) (u : UserSpace) (k : Kernel) (token user_message : ℕ)
    → let a = endpoint_call services buffer u k token user_message in
      ((e : Error) × (a.status ≡ err e) × (a.kernel ≡ k))
      ⊎ Sent services buffer u k token user_message
unfolding endpoint_call Refused
endpoint_call-cases services buffer u k token user_message =
    elim (Result-cases (Cap.check k.space token right_send obj_endpoint)) [
      | inr (e, a) ↦ inl (e, rw (a, endpoint_call) refl, rw (a, endpoint_call) refl)
      | inl (entry, a) ↦ elim (Result-cases (copy_from u user_message true message_size)) [
        | inr (e, b) ↦ inl (e, rw (a, endpoint_call) (rw b refl), rw (a, endpoint_call) (rw b refl))
        | inl (bytes, b) ↦ elim (Result-cases (check_target k token (message_of bytes))) [
          | inr (e, c) ↦ inl (
            e,
            rw (a, endpoint_call) (rw b (rw c refl)),
            rw (a, endpoint_call) (rw b (rw c refl)),
          )
          | inl (t, c) ↦
              let whole = endpoint_call-concludes services buffer u k token user_message a b c in
              elim (Arranged-cases (arrange u buffer (message_of bytes))) [
                | inl (e, f, m, d) ↦ inl (
                    subst (λ (x : Answer). Refused x k)
                      (sym (whole ∙ ap (conclude services u k token user_message) d))
                      (conclude-Refused services u k token user_message e f m))
                | inr (m, payload, d) ↦ inr (record {
                  entry = entry;
                  allowed = a;
                  bytes = bytes;
                  copied = b;
                  named = check_target-eq-ok k token (message_of bytes) c;
                  message = m;
                  payload = payload;
                  arranged = d;
                  sends =
                      whole
                      ∙ ap (conclude services u k token user_message) d
                      ∙ conclude-ready services u k token user_message m payload;
                })
              ]
        ]
      ]
    ]
