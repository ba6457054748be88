-- ===== src/Syscall/Laws.antt =====
-- When a program goes on after a call, and what a call that is refused leaves.
use scdk.Base.{
  ℕ, ◌^◌, ◌%◌, ◌≡◌, ◌⊎◌, refl, sym, subst, inl, inr, Bool, true, false, not, ◌==◌, if◌then◌else◌,
  Option, none, some,
}
use scdk.Status.{Error, Result, Status, ok, err, notsup, status_word, checked}
use scdk.Endpoint.{Handlers}
use scdk.UserIpc.{Services, Fault, endpoint_call}
use scdk.Scheduler.{yield}
use scdk.UserGrant
use scdk.UserRing
use scdk.UserRing.Batch as Batch
use scdk.Task.{current_task}
use scdk.Syscall.{
  System, Flags, dispatch, switch, kill_user, mark_user_fault, after_call, after_fault, answers,
  gives, passed, returns, tasks_of, with_tasks, with_kernel, sys_endpoint_call, sys_yield,
  sys_grant_create, sys_grant_revoke, sys_ring_create, sys_ring_bind, sys_ring_submit,
  sys_ring_poll, for_current,
}

-- The program of the flags has neither exited nor faulted.
pub record IsRunning (f : Flags) : Type 0 where
  pub stays : f.user_exited ≡ false
  pub sound : f.user_faulted ≡ false

-- Both branches of a test do.
either {ℓ κ} :
    {A : Type ℓ} (P : A → Type κ) (b : Bool) {x y : A} → P x → P y → P (if b then x else y)
either P true p q = p
either P false p q = q

-- How a call ends: the program goes on, or it has exited.
abbrev pub Ends : ℕ × System → Type 0
Ends (code, s) = ((code ≡ 0) × IsRunning s.flags) ⊎ ((code ≡ 1) × (s.flags.user_exited ≡ true))

answers-Ends : (status : Status) (s : System) → IsRunning s.flags → Ends (answers status s)
answers-Ends status s r = inl (refl, record { stays = r.stays; sound = r.sound })

gives-Ends : (r : Result ℕ) (s : System) → IsRunning s.flags → Ends (gives r s)
gives-Ends (ok value) s r = inl (refl, record { stays = r.stays; sound = r.sound })
gives-Ends (err e) s r = inl (refl, record { stays = r.stays; sound = r.sound })

passed-IsRunning :
    (s : System) (status : Status) → IsRunning s.flags → IsRunning (passed s status).flags
passed-IsRunning s (ok _) r = record { stays = r.stays; sound = r.sound }
passed-IsRunning s (err e) r = r

kill_user-flags :
    (s : System) (e : Error)
    → ((kill_user s e).flags.user_exited ≡ true) × ((kill_user s e).flags.user_faulted ≡ true)
unfolding kill_user mark_user_fault
kill_user-flags s e = (refl, refl)

-- After the call's own part the task has faulted, and so exited, or runs on.
after_fault-flags :
    (s : System) (f : Option Fault) (status : Status)
    → IsRunning s.flags
    → let t = after_fault s f status in
      IsRunning t.flags ⊎ ((t.flags.user_faulted ≡ true) × (t.flags.user_exited ≡ true))
after_fault-flags s none status r = inl r
after_fault-flags s (some f) (ok _) r = inl r
after_fault-flags s (some f) (err e) r = let (x, y) = kill_user-flags s e in inr (y, x)

module _ (services : Services) (handlers : Handlers) (buffer : ℕ)
    (elsewhere : System → System) where
  sys_endpoint_call-Ends :
      (s : System) (arg0 arg1 : ℕ)
      → IsRunning s.flags
      → Ends (sys_endpoint_call services handlers buffer elsewhere s arg0 arg1)
  unfolding sys_endpoint_call
  sys_endpoint_call-Ends s arg0 arg1 r =
      let a = endpoint_call services buffer s.user s.kernel arg0 arg1 in
      elim (after_fault-flags (record s { kernel = a.kernel; user = a.user }) a.fault a.status r) [
        | inl on ↦ rw on.sound (
            answers-Ends a.status (passed (after_call s a) a.status)
              (passed-IsRunning (after_call s a) a.status on))
        | inr (faulted, exited) ↦ rw faulted (inr (refl, exited))
      ]

  module _ (s : System) (r : IsRunning s.flags) where
    sys_grant_create-Ends :
        (arg0 arg1 arg2 arg3 : ℕ)
        → Ends (sys_grant_create services handlers buffer elsewhere s arg0 arg1 arg2 arg3)
    unfolding sys_grant_create
    sys_grant_create-Ends arg0 arg1 arg2 arg3 =
        let p =
          for_current s (λ task. UserGrant.create s.user s.kernel task arg0 arg1 arg2 arg3 true) in
        gives-Ends p.0 (with_kernel s p.1) r

    sys_grant_revoke-Ends :
        (arg0 : ℕ) → Ends (sys_grant_revoke services handlers buffer elsewhere s arg0)
    unfolding sys_grant_revoke
    sys_grant_revoke-Ends arg0 =
        let p = UserGrant.revoke s.kernel arg0 in answers-Ends p.0 (with_kernel s p.1) r

    sys_ring_create-Ends :
        (arg0 : ℕ) → Ends (sys_ring_create services handlers buffer elsewhere s arg0)
    unfolding sys_ring_create
    sys_ring_create-Ends arg0 =
        let p = for_current s (λ task. UserRing.create s.kernel task (arg0 % 2 ^ 32) true) in
        gives-Ends p.0 (with_kernel s p.1) r

    sys_ring_bind-Ends :
        (arg0 arg1 : ℕ) → Ends (sys_ring_bind services handlers buffer elsewhere s arg0 arg1)
    unfolding sys_ring_bind
    sys_ring_bind-Ends arg0 arg1 =
        let p = for_current s (λ task. UserRing.bind s.kernel task arg0 arg1) in
        answers-Ends p.0 (with_kernel s p.1) r

    sys_ring_submit-Ends :
        (arg0 arg1 arg2 : ℕ)
        → Ends (sys_ring_submit services handlers buffer elsewhere s arg0 arg1 arg2)
    unfolding sys_ring_submit
    sys_ring_submit-Ends arg0 arg1 arg2 =
        let p =
          for_current s
            (λ task. Batch.submit handlers s.user s.kernel task arg0 arg1 (arg2 % 2 ^ 32)) in
        answers-Ends p.0 (passed (with_kernel s p.1) p.0)
          (passed-IsRunning (with_kernel s p.1) p.0 r)

    sys_ring_poll-Ends :
        (arg0 arg1 arg2 : ℕ)
        → Ends (sys_ring_poll services handlers buffer elsewhere s arg0 arg1 arg2)
    unfolding sys_ring_poll
    sys_ring_poll-Ends arg0 arg1 arg2 =
        let p =
          checked (current_task s.tasks true) (s.user, s.kernel)
            (λ task. Batch.poll s.user s.kernel task arg0 arg1 (arg2 % 2 ^ 32) true) in
        gives-Ends p.0 (record s { kernel = p.1.1; user = p.1.0 }) r

    sys_yield-Ends :
        ((t : System) → (elsewhere t).flags ≡ t.flags)
        → Ends (sys_yield services handlers buffer elsewhere s)
    unfolding sys_yield
    sys_yield-Ends apart =
        let t = tasks_of s in
        let yielded =
          with_tasks s
            (record t { memory = record (t.memory) { scheduler = yield t.memory.scheduler } }) in
        answers-Ends (ok tt) (elsewhere yielded) (subst IsRunning (sym (apart yielded)) r)

    switch-Ends :
        (number arg0 arg1 arg2 arg3 : ℕ)
        → ((t : System) → (elsewhere t).flags ≡ t.flags)
        → Ends (switch services handlers buffer elsewhere s number arg0 arg1 arg2 arg3)
    unfolding switch
    switch-Ends number arg0 arg1 arg2 arg3 apart =
        either Ends (number == 0) (answers-Ends (ok tt) s r) (
          either Ends (number == 1) (sys_endpoint_call-Ends s arg0 arg1 r) (
            either Ends (number == 2) (sys_yield-Ends apart) (
              either Ends (number == 3) (inr (refl, refl)) (
                either Ends (number == 4) (sys_grant_create-Ends arg0 arg1 arg2 arg3) (
                  either Ends (number == 5) (sys_grant_revoke-Ends arg0) (
                    either Ends (number == 6) (sys_ring_create-Ends arg0) (
                      either Ends (number == 7) (sys_ring_bind-Ends arg0 arg1) (
                        either Ends (number == 8) (sys_ring_submit-Ends arg0 arg1 arg2) (
                          either Ends (number == 9) (sys_ring_poll-Ends arg0 arg1 arg2)
                            (inr (refl, (kill_user-flags s notsup).0)))))))))))

  -- A program that has neither exited nor faulted makes any call, and what other threads do while
  -- it has yielded leaves its flags alone. Then dispatch returns 0, and the program still has
  -- neither exited nor faulted, or it returns 1, which leaves the program, and the program has
  -- exited.
  pub dispatch-Ends :
      (s : System) (number arg0 arg1 arg2 arg3 : ℕ)
      → s.ready ≡ true
      → IsRunning s.flags
      → ((t : System) → (elsewhere t).flags ≡ t.flags)
      → Ends (dispatch services handlers buffer elsewhere s number arg0 arg1 arg2 arg3)
  unfolding dispatch
  dispatch-Ends s number arg0 arg1 arg2 arg3 up r apart =
      subst
        (λ b. Ends (
          if not b
          then (1, returns s (status_word {A = Unit {0}} (err notsup)))
          else switch services handlers buffer elsewhere s number arg0 arg1 arg2 arg3))
        (sym up) (switch-Ends s r number arg0 arg1 arg2 arg3 apart)
