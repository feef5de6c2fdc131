-- ===== src/Auth/Context/Balance.antt =====
-- The account of the contexts of auth.back/src/password.c and auth.back/src/fingerprint.c.
use kirilock.Base.{
  ℕ, ◌+◌, ◌≡◌, refl, is_negative, Bool, true, false, Bool-cases, inl, inr, Option, none, some,
  arith,
}
use kirilock.Platform.{
  Env, World, after, Weight, Balance, held, memory, read_end, write_end, bus, message, slot,
  calloc_memory, strdup, pipe, sd_bus_open_system, sd_bus_get_default_device, sd_bus_message_read,
}
use kirilock.Auth.Context.{
  PasswordContext, name_password, kl_password_init, release_password, FingerprintContext, use_path,
  use_reply, find_device, use_pipe, name_fingerprint, kl_fingerprint_init, release_device,
  release_fingerprint,
}

abbrev pub holds_password : Weight → PasswordContext → ℕ
holds_password w ctx = w (memory ctx.address) + held (λ p. w (memory p)) ctx.username

abbrev pub holds_fingerprint : Weight → FingerprintContext → ℕ
holds_fingerprint w ctx =
    w (memory ctx.address)
    + held (λ p. w (memory p)) ctx.username
    + (w (read_end ctx.cancel_pipe) + w (write_end ctx.cancel_pipe))
    + held (λ p. w (bus p)) ctx.bus
    + held (λ p. w (memory p)) ctx.device_path
    + held (λ p. w (slot p)) ctx.signal_slot

module _ (w : Weight) (env : Env) where
  name_password-Balance :
      (named : Bool) (p : Option ℕ) (s : World)
      → let r = name_password named p env s in
        Balance w s (held (λ q. w (memory q)) p) r.1 (held (holds_password w) r.0)
  unfolding name_password
  name_password-Balance named none s = omega arith
  name_password-Balance true (some p) s = ground arith
  name_password-Balance false (some p) s = ground arith

  -- The account is kept.
  pub kl_password_init-Balance :
      (named : Bool) (s : World)
      → let r = kl_password_init named env s in Balance w s 0 r.1 (held (holds_password w) r.0)
  unfolding kl_password_init
  kl_password_init-Balance named s =
      let p = env.pointer s.tick calloc_memory in
      ground (arith, name_password-Balance named p (after s calloc_memory p))

  pub release_password-Balance :
      (ctx : PasswordContext) (s : World)
      → Balance w s (holds_password w ctx) (release_password ctx env s).1 0
  unfolding release_password
  release_password-Balance ctx s = ground arith

  use_path-Balance :
      (b reply : ℕ) (ctx : FingerprintContext) (path : Option ℕ) (s : World)
      → ctx.device_path ≡ none
      → ctx.signal_slot ≡ none
      → let r = use_path b reply ctx path env s in
        Balance w s
          (holds_fingerprint w ctx + w (message reply) + held (λ p. w (memory p)) path)
          r.1
          (holds_fingerprint w r.0)
  unfolding use_path
  use_path-Balance b reply ctx path s e f = ground arith

  use_reply-Balance :
      (b : ℕ) (ctx : FingerprintContext) (reply : Option ℕ) (s : World)
      → ctx.device_path ≡ none
      → ctx.signal_slot ≡ none
      → let r = use_reply b ctx reply env s in
        Balance w s
          (holds_fingerprint w ctx + held (λ p. w (message p)) reply)
          r.1
          (holds_fingerprint w r.0)
  unfolding use_reply
  use_reply-Balance b ctx none s e f = omega arith
  use_reply-Balance b ctx (some m) s e f =
      let c = sd_bus_message_read m in
      let t = after s c none in
      let p = env.pointer t.tick strdup in
      elim (Bool-cases (is_negative (env.number s.tick c))) [
        | inl h ↦ rw h (omega (arith, use_path-Balance b m ctx none t e f))
        | inr h ↦ rw h (ground (arith, use_path-Balance b m ctx p (after t strdup p) e f))
      ]

  find_device-Balance :
      (ctx : FingerprintContext) (p : Option ℕ) (s : World)
      → ctx.bus ≡ none
      → ctx.device_path ≡ none
      → ctx.signal_slot ≡ none
      → let r = find_device ctx p env s in
        Balance w s
          (holds_fingerprint w ctx + held (λ q. w (bus q)) p)
          r.1
          (holds_fingerprint w r.0)
  unfolding find_device
  find_device-Balance ctx none s d e f = omega arith
  find_device-Balance ctx (some b) s d e f =
      let c = sd_bus_get_default_device b in
      let m = env.pointer s.tick c in
      ground (arith, use_reply-Balance b (record ctx { bus = some b }) m (after s c m) e f)

  use_pipe-Balance :
      (address : ℕ) (name p : Option ℕ) (s : World)
      → let r = use_pipe address name p env s in
        Balance w s
          (w (memory address)
            + held (λ q. w (memory q)) name
            + held (λ q. w (read_end q) + w (write_end q)) p)
          r.1
          (held (holds_fingerprint w) r.0)
  unfolding use_pipe
  use_pipe-Balance address name none s = ground arith
  use_pipe-Balance address name (some ends) s =
      let ctx : FingerprintContext = record {
        address = address;
        username = name;
        cancel_pipe = ends;
        bus = none;
        device_path = none;
        signal_slot = none;
      } in
      let p = env.pointer s.tick sd_bus_open_system in
      ground (arith, find_device-Balance ctx p (after s sd_bus_open_system p) refl refl refl)

  name_fingerprint-Balance :
      (named : Bool) (p : Option ℕ) (s : World)
      → let r = name_fingerprint named p env s in
        Balance w s (held (λ q. w (memory q)) p) r.1 (held (holds_fingerprint w) r.0)
  unfolding name_fingerprint
  name_fingerprint-Balance named none s = omega arith
  name_fingerprint-Balance false (some address) s =
      let p = env.pointer s.tick pipe in
      ground (arith, use_pipe-Balance address none p (after s pipe p))
  name_fingerprint-Balance true (some address) s =
      let n = env.pointer s.tick strdup in
      let t = after s strdup n in
      let p = env.pointer t.tick pipe in
      ground (arith, use_pipe-Balance address n p (after t pipe p))

  -- The account is kept.
  pub kl_fingerprint_init-Balance :
      (named : Bool) (s : World)
      → let r = kl_fingerprint_init named env s in
        Balance w s 0 r.1 (held (holds_fingerprint w) r.0)
  unfolding kl_fingerprint_init
  kl_fingerprint_init-Balance named s =
      let p = env.pointer s.tick calloc_memory in
      ground (arith, name_fingerprint-Balance named p (after s calloc_memory p))

  -- The account is kept.
  pub release_fingerprint-Balance :
      (ctx : FingerprintContext) (s : World)
      → Balance w s (holds_fingerprint w ctx) (release_fingerprint ctx env s).1 0
  unfolding release_fingerprint release_device
  release_fingerprint-Balance ctx s = ground arith
