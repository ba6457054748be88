-- ===== src/UserGrant/Powers.antt =====
-- What the token of a new user grant can do, in the kernel that the creation leaves.
use scdk.Base.{
  ℕ, ◌+◌, ◌≡◌, ◌≢◌, refl, sym, ◌∙◌, ap, subst, inl, inr, Bool, true, false, arith, leb,
  if◌then◌else◌, bit_or, bit_and-bit_or_right, update_self,
}
use scdk.Status.{ok, err, bounds, Result-cases}
use scdk.Object
use scdk.Object.{element, user_grants, obj_grant, obj_task, obj_endpoint}
use scdk.Cap
use scdk.Cap.{CapEntry, has_rights, right_read, right_send, right_revoke}
use scdk.Cap.Rights.{describe}
use scdk.Cap.Growth.{Grows-check}
use scdk.Kernel.{Kernel, UserGrantSlot}
use scdk.Grant.{beyond_mask}
use scdk.UserSpace.{UserSpace}
use scdk.UserGrant.{
  new_slot, check_request, create, check_binding, lookup, check_range, validate_access, revoke,
}
use scdk.UserGrant.Create.{IsBacked, Installed, Outcome, create-Outcome, has_rights-bit_or}

-- The slot as the creation fills it.
abbrev pub filled_slot :
    {k : Kernel} {slot : UserGrantSlot} {cap : ℕ} {k' : Kernel}
    → Installed k slot cap k'
    → UserGrantSlot
filled_slot {slot = slot} i = record slot { object_id = i.id }

pub check-Installed :
    {k : Kernel} {slot : UserGrantSlot} {cap : ℕ} {k' : Kernel} (required : ℕ)
    (i : Installed k slot cap k')
    → required ≢ 0
    → has_rights (bit_or slot.rights right_revoke) required ≡ true
    → Cap.check k'.space cap required obj_grant
      ≡ ok (describe i.behind.object (bit_or slot.rights right_revoke))
unfolding Cap.check
check-Installed required i pos within =
    let e = i.behind.entry in let t = i.behind.typed in ground arith

pub lookup-Installed :
    {k : Kernel} {slot : UserGrantSlot} {cap : ℕ} {k' : Kernel} (required : ℕ) (live : Bool)
    (i : Installed k slot cap k')
    → required ≢ 0
    → has_rights (bit_or slot.rights right_revoke) required ≡ true
    → slot.revoked ≡ false
    → check_binding k' (filled_slot i) live ≡ ok tt
    → lookup k' cap required live ≡ ok (element user_grants i.index, filled_slot i)
unfolding lookup check_binding
lookup-Installed {k} {slot} {cap} {k'} required live i pos within fresh bound =
    let there =
      subst (λ x. Object.lookup k'.space.objects x true ≡ ok i.behind.object) (sym i.behind.named)
        i.behind.found in
    let at : k'.user_grants i.index ≡ filled_slot i =
      ap (λ f. f i.index) i.filled ∙ update_self k.user_grants i.index _ in
    rw (check-Installed required i pos within)
      (rw there (rw i.behind.payload (rw at (rw (fresh, bound) (ground (arith, i.behind.named))))))

-- The tokens that the request names, in the kernel that the creation leaves.
binding-create :
    (u : UserSpace) {k k' : Kernel} (task base length rights endpoint : ℕ) (out : Bool) (id : ℕ)
    {cap : ℕ}
    → Installed k (new_slot task base length rights endpoint) cap k'
    → check_request u k task base length rights endpoint out ≡ ok tt
    → check_binding k' (record (new_slot task base length rights endpoint) { object_id = id }) true
      ≡ ok tt
unfolding check_request check_binding
binding-create u {k} {k'} task base length rights endpoint out id i h =
    elim (Result-cases (Cap.check k.space task right_read obj_task)) [
      | inr (x, bad) ↦ absurd (ground arith)
      | inl (t, by_task) ↦
          elim (Result-cases (Cap.check k.space endpoint right_send obj_endpoint)) [
            | inr (x, bad) ↦ absurd (ground arith)
            | inl (e, by_endpoint) ↦ rw (
              Grows-check task right_read obj_task i.grows by_task,
              Grows-check endpoint right_send obj_endpoint i.grows by_endpoint,
            )
          ]
    ]

request-create :
    (u : UserSpace) (k : Kernel) (task base length rights endpoint : ℕ) (out : Bool) {cap : ℕ}
    {k' : Kernel}
    → create u k task base length rights endpoint out ≡ (ok cap, k')
    → check_request u k task base length rights endpoint out ≡ ok tt
unfolding create
request-create u k task base length rights endpoint out h =
    elim (Result-cases (check_request u k task base length rights endpoint out)) [
      | inr (x, bad) ↦ absurd (ground arith)
      | inl (t, good) ↦ ground arith
    ]

module _ (u : UserSpace) (k : Kernel) (task base length rights endpoint : ℕ) (out : Bool) {cap : ℕ}
    {k' : Kernel} (backed : IsBacked k)
    (h : create u k task base length rights endpoint out ≡ (ok cap, k')) where
  pub installed : Installed k (new_slot task base length rights endpoint) cap k'
  installed =
      subst (Outcome k (new_slot task base length rights endpoint)) h
        (create-Outcome u k task base length rights endpoint out backed)

  -- In a kernel whose used slots are backed by their objects, a new user grant's token passes,
  -- for at least one byte and with some of its READ, WRITE and MAP rights, exactly the accesses
  -- that lie within the grant's length.
  pub validate_access-create :
      (required offset size : ℕ)
      → required ≢ 0
      → beyond_mask required ≡ false
      → has_rights rights required ≡ true
      → size ≢ 0
      → validate_access k' cap offset size required
        ≡ (if leb (offset + size) length then ok tt else err bounds)
  unfolding validate_access check_range
  validate_access-create required offset size pos known within bytes =
      let i = installed in
      let bound =
        binding-create u task base length rights endpoint out i.id i
          (request-create u k task base length rights endpoint out h) in
      let found =
        lookup-Installed required true i pos (has_rights-bit_or rights right_revoke required within)
          refl bound in
      rw found (ground arith)

  -- In a kernel whose used slots are backed by their objects, a new user grant's token can revoke
  -- the grant.
  pub revoke-create : (revoke k' cap).0 ≡ ok tt
  unfolding revoke check_binding Cap.revoke
  revoke-create =
      let i = installed in
      let all : has_rights (bit_or rights right_revoke) right_revoke ≡ true =
        ground (arith, bit_and-bit_or_right rights right_revoke) in
      let found = lookup-Installed right_revoke false i (omega arith) all refl refl in
      rw found (rw (i.behind.entry, Cap.revoke) refl)
