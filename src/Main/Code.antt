-- ===== src/Main/Code.antt =====
-- The exit status of src/main.c.
use kirilock.Base.{
  ℕ, suc, zero, ℤ, pos, negsuc, ◌≡◌, refl, is_negative, Bool, true, false, Bool-cases, inl, inr,
  Option, none, some, arith,
}
use kirilock.Platform.{Env, World, after, epoll_ctl_add, wl_display_get_fd}
use kirilock.Buffer.{Status, success, failure}
use kirilock.Lock.{Context, handle_of}
use kirilock.Session.{kl_context_init, kl_context_lock_session}
use kirilock.Session.Protocol.{OnlyLocked, lock_session-OnlyLocked}
use kirilock.Main.{
  Exit, returned, running, quit, unlock_and_quit, leave_loop, use_epoll, use_display_fd,
  use_session, use_context, main,
}

-- A return with 0 where `P` holds, a return with -1, or no return.
abbrev pub Exits : Type 0 → Exit → Type 0
Exits P (returned (pos zero)) = P
Exits P (returned (pos (suc n))) = ⊥
Exits P (returned (negsuc zero)) = Unit {0}
Exits P (returned (negsuc (suc n))) = ⊥
Exits P (running ctx epoll) = Unit {0}

-- The initialisation and the locking have succeeded, and the compositor has confirmed the lock.
pub record Confirmed (waits : ℕ) (env : Env) (s : World) : Type 0 where
  pub initialised : (kl_context_init env s).0.0 ≡ success
  pub locked :
      let (a, t) = kl_context_init env s in
      (kl_context_lock_session waits a.1 env t).0.0 ≡ some success
  pub confirmed :
      let (a, t) = kl_context_init env s in
      (kl_context_lock_session waits a.1 env t).0.1.is_locked ≡ true

Exits-mono : {P Q : Type 0} → (P → Q) → (r : Exit) → Exits P r → Exits Q r
Exits-mono f (returned (pos zero)) v = f v
Exits-mono f (returned (pos (suc n))) v = v
Exits-mono f (returned (negsuc zero)) v = tt
Exits-mono f (returned (negsuc (suc n))) v = v
Exits-mono f (running ctx epoll) v = tt

OnlyLocked-is_locked :
    (a : Option Status × Context) → OnlyLocked a → a.0 ≡ some success → a.1.is_locked ≡ true
OnlyLocked-is_locked (none, ctx) v e = ground arith
OnlyLocked-is_locked (some failure, ctx) v e = ground arith
OnlyLocked-is_locked (some success, ctx) v e = v

module _ (env : Env) where
  leave_loop-Exits :
      (epoll : ℕ) (a : Bool × Context) (s : World) → Exits (Unit {0}) (leave_loop epoll a env s).0
  unfolding leave_loop unlock_and_quit quit
  leave_loop-Exits epoll (false, ctx) s = tt
  leave_loop-Exits epoll (true, ctx) s = tt

  use_epoll-Exits :
      (rounds tries display_fd : ℕ) (ctx : Context) (p : Option ℕ) (s : World)
      → Exits (Unit {0}) (use_epoll rounds tries display_fd ctx p env s).0
  unfolding use_epoll unlock_and_quit quit
  use_epoll-Exits rounds tries display_fd ctx none s = tt
  use_epoll-Exits rounds tries display_fd ctx (some epoll) s =
      elim (Bool-cases (is_negative (env.number s.tick (epoll_ctl_add epoll display_fd)))) [
        | inl e ↦ rw e tt
        | inr e ↦ rw e (leave_loop-Exits epoll _ _)
      ]

  use_display_fd-Exits :
      (rounds tries : ℕ) (ctx : Context) (fd : ℤ) (s : World)
      → Exits (Unit {0}) (use_display_fd rounds tries ctx fd env s).0
  unfolding use_display_fd unlock_and_quit quit
  use_display_fd-Exits rounds tries ctx (negsuc n) s = tt
  use_display_fd-Exits rounds tries ctx (pos fd) s = use_epoll-Exits rounds tries fd ctx _ _

  use_session-Exits :
      (rounds tries : ℕ) (a : Option Status × Context) (s : World)
      → Exits (a.0 ≡ some success) (use_session rounds tries a env s).0
  unfolding use_session quit
  use_session-Exits rounds tries (none, ctx) s = tt
  use_session-Exits rounds tries (some failure, ctx) s = tt
  use_session-Exits rounds tries (some success, ctx) s =
      let c = wl_display_get_fd (handle_of ctx.display) in
      let r = use_display_fd rounds tries ctx (env.number s.tick c) env (after s c none) in
      Exits-mono (λ u. refl) r.0 (use_display_fd-Exits rounds tries ctx _ _)

  use_context-Exits :
      (waits rounds tries : ℕ) (a : Status × Context) (s : World)
      → Exits
          ((a.0 ≡ success) × ((kl_context_lock_session waits a.1 env s).0.0 ≡ some success))
          (use_context waits rounds tries a env s).0
  unfolding use_context
  use_context-Exits waits rounds tries (failure, ctx) s = tt
  use_context-Exits waits rounds tries (success, ctx) s =
      let (b, t) = kl_context_lock_session waits ctx env s in
      Exits-mono (λ e. (refl, e)) (use_session rounds tries b env t).0
        (use_session-Exits rounds tries b t)

-- The program returns 0 only if the initialisation and the locking have succeeded and the
-- compositor has confirmed the lock; in every other case it returns -1, or it is still in one of
-- its loops or in an epoll_wait that waits forever.
pub main-Exits :
    (waits rounds tries : ℕ) (env : Env) (s : World)
    → Exits (Confirmed waits env s) (main waits rounds tries env s).0
unfolding main
main-Exits waits rounds tries env s =
    let (a, t) = kl_context_init env s in
    let v = lock_session-OnlyLocked waits a.1 env t in
    Exits-mono
      (λ (e : (a.0 ≡ success) × ((kl_context_lock_session waits a.1 env t).0.0 ≡ some success)).
        record {
          initialised = e.0;
          locked = e.1;
          confirmed = OnlyLocked-is_locked (kl_context_lock_session waits a.1 env t).0 v e.1;
        })
      (use_context waits rounds tries a env t).0 (use_context-Exits env waits rounds tries a t)
