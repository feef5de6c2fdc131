-- ===== src/Auth/Example/Account.antt =====
-- The account of `main` of auth.back/example/main.c.
use kirilock.Base.{ℕ, ◌+◌, Bool, true, Option, none, some, List, arith}
use kirilock.Platform.{
  Env, World, after, Weight, Balance, held, memory, malloc_memory, strdup, free_memory, getpwuid_r,
  endpwent,
}
use kirilock.Auth.Console.{Round}
use kirilock.Auth.Context.{
  PasswordContext, FingerprintContext, kl_password_init, kl_fingerprint_init, release_fingerprint,
}
use kirilock.Auth.Context.Balance.{
  holds_password, holds_fingerprint, kl_password_init-Balance, kl_fingerprint_init-Balance,
  release_password-Balance, release_fingerprint-Balance,
}
use kirilock.Auth.Example.{
  kl_fingerprint_delete, kl_password_delete, use_contexts, use_username, use_pw_buf, main,
}

module _ (w : Weight) (env : Env) (rounds : List Round) (granted : Bool) (cells : ℕ → ℕ) where
  use_contexts-Balance :
      (fp : Option FingerprintContext) (pw : Option PasswordContext) (s : World)
      → let r = use_contexts rounds granted cells fp pw env s in
        Balance w s (held (holds_fingerprint w) fp + held (holds_password w) pw) r.1 0
  unfolding use_contexts kl_fingerprint_delete kl_password_delete
  use_contexts-Balance none none s = omega arith
  use_contexts-Balance none (some pw) s = omega (arith, release_password-Balance w env pw s)
  use_contexts-Balance (some fp) none s = omega (arith, release_fingerprint-Balance w env fp s)
  use_contexts-Balance (some fp) (some pw) s =
      let t = (release_fingerprint fp env s).1 in
      omega (arith, release_fingerprint-Balance w env fp s, release_password-Balance w env pw t)

  use_username-Balance :
      (username : Option ℕ) (s : World)
      → let r = use_username rounds granted cells username env s in
        Balance w s (held (λ p. w (memory p)) username) r.1 0
  unfolding use_username
  use_username-Balance none s = omega arith
  use_username-Balance (some p) s =
      let (fp, t) = kl_fingerprint_init true env s in
      let (pw, u) = kl_password_init true env t in
      omega (
        arith,
        kl_fingerprint_init-Balance w env true s,
        kl_password_init-Balance w env true t,
        use_contexts-Balance fp pw (after u (free_memory p) none),
      )

  use_pw_buf-Balance :
      (pw_buf : Option ℕ) (s : World)
      → let r = use_pw_buf rounds granted cells pw_buf env s in
        Balance w s (held (λ p. w (memory p)) pw_buf) r.1 0
  unfolding use_pw_buf
  use_pw_buf-Balance none s = omega arith
  use_pw_buf-Balance (some p) s =
      let t = after s getpwuid_r none in
      let n = env.pointer t.tick strdup in
      let u = after (after (after t strdup n) (free_memory p) none) endpwent none in
      ground (arith, use_username-Balance n u)

  -- Whatever fails in `main` of the example, what it and the two libraries made outside their
  -- threads is given back, each object once, when it returns.
  pub example-Balance : (s : World) → Balance w s 0 (main rounds granted cells env s).1 0
  unfolding main
  example-Balance s =
      let p = env.pointer s.tick malloc_memory in
      ground (arith, use_pw_buf-Balance p (after s malloc_memory p))
