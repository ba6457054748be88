-- ===== src/Session/Allowed.antt =====
-- What a program learns from the session service.
use scdk.Base.{◌≡◌, refl, inl, inr, true, not, arith, ◌==◌, Bool-cases}
use scdk.Status.{ok, Result-cases}
use scdk.Kernel.{Kernel, Message}
use scdk.Endpoint
use scdk.Session.{handler, service_allowed}
use scdk.Message.{msg_service_lookup}

-- The session service never changes the kernel, and it gives out a token only for a lookup of one
-- of the five allowed services: then the token is the one that the service is registered with.
pub handler-allowed :
    (msg : Message) (k : Kernel)
    → let (status, reply, k') = handler msg k in
      (k' ≡ k)
      × (status ≡ ok tt
          → (msg.type ≡ msg_service_lookup)
            × (service_allowed msg.arg0 ≡ true)
            × (Endpoint.service k msg.arg0 true ≡ ok reply.arg0))
unfolding handler
handler-allowed msg k = elim (Bool-cases (not (msg.type == msg_service_lookup))) [
  | inl other ↦ rw (other, handler) (refl, λ h. absurd (ground arith))
  | inr asks ↦ elim (Bool-cases (not (service_allowed msg.arg0))) [
    | inl closed ↦ rw (asks, closed, handler) (refl, λ h. absurd (ground arith))
    | inr open_to ↦ elim (Result-cases (Endpoint.service k msg.arg0 true)) [
      | inr (e, missing) ↦
          rw (asks, open_to, handler) (rw missing (refl, λ h. absurd (ground arith)))
      | inl (endpoint, found) ↦
          rw (asks, open_to, handler) (rw found (refl, λ h. (ground arith, ground arith, refl)))
    ]
  ]
]
