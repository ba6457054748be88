-- ===== src/UserGrant/Confusion.antt =====
-- Both kinds of grant are objects of one type, and each reads the other's slot as its own.
use scdk.Base.{
  ℕ, ◌+◌, ◌-◌, ◌%◌, ◌^◌, ◌≤◌, ◌≡◌, ◌≢◌, sym, ◌∙◌, ap, subst, Bool, true, false, arith, update_self,
}
use scdk.Status.{ok}
use scdk.Object
use scdk.Cap.{has_rights, right_revoke}
use scdk.Kernel.{Kernel}
use scdk.Grant
use scdk.Grant.{beyond_mask}
use scdk.UserSpace.{UserSpace}
use scdk.UserGrant.{create}
use scdk.UserGrant.Create.{IsBacked, has_rights-bit_or}
use scdk.UserGrant.Powers.{installed, check-Installed, filled_slot}

-- In a kernel whose used slots are backed by their objects, `scdk_grant_resolve` takes a new user
-- grant's token, with some of its rights and for a range of at least one byte that lies in the
-- granted memory, its offset being the address, and answers with a kernel pointer that counts from
-- the value of the target endpoint's token.
pub resolve_user_grant :
    (u : UserSpace) (k : Kernel) (task base length rights endpoint : ℕ) (out : Bool) {cap : ℕ}
    {k' : Kernel} (required offset size : ℕ)
    → IsBacked k
    → create u k task base length rights endpoint out ≡ (ok cap, k')
    → required ≢ 0
    → beyond_mask required ≡ false
    → has_rights rights required ≡ true
    → size ≢ 0
    → base ≤ offset
    → offset - base + size ≤ length
    → Grant.resolve k' cap required offset size true ≡ ok ((endpoint + (offset - base)) % 2 ^ 64)
unfolding Grant.resolve Grant.lookup Grant.check_range
resolve_user_grant u k task base length rights endpoint out {cap} {k'} required offset size backed h
      pos known within bytes lo hi =
    let i = installed u k task base length rights endpoint out backed h in
    let there =
      subst (λ x. Object.lookup k'.space.objects x true ≡ ok i.behind.object) (sym i.behind.named)
        i.behind.found in
    let at : k'.user_grants i.index ≡ filled_slot i =
      ap (λ f. f i.index) i.filled ∙ update_self k.user_grants i.index _ in
    rw (check-Installed required i pos (has_rights-bit_or rights right_revoke required within))
      (rw there (rw i.behind.payload (rw at (ground (arith, i.behind.named)))))
