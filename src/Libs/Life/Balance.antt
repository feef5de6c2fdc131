-- ===== src/Libs/Life/Balance.antt =====
-- The account of the class `Fingerprint` and of `main` of libs/auth/example/main.cpp.
use kirilock.Base.{
  ℕ, ◌+◌, ◌≡◌, refl, is_negative, Bool, false, Bool-cases, inl, inr, Option, none, some, List,
  arith,
}
use kirilock.Platform.{
  Env, World, after, Weight, Balance, held, read_end, write_end, bus, message, slot, pipe,
  sd_bus_open_system, sd_bus_get_default_device, sd_bus_message_read, getpwuid_r, endpwent,
}
use kirilock.Auth.Console.{Round}
use kirilock.Libs.Life.{
  Members, claim_scanner, take_reply, take_bus, construct, release_scanner, close_pipe, destruct,
  get_current_username, port_main,
}

abbrev pub holds_members : Weight → Members → ℕ
holds_members w self =
    held (λ p. w (read_end p) + w (write_end p)) self.cancel_pipe
    + held (λ p. w (bus p)) self.bus
    + held (λ p. w (slot p)) self.signal_slot

module _ (w : Weight) (env : Env) where
  take_reply-Balance :
      (b : ℕ) (self : Members) (reply : Option ℕ) (s : World)
      → self.signal_slot ≡ none
      → let r = take_reply b self reply env s in
        Balance w s
          (holds_members w self + held (λ p. w (message p)) reply)
          r.1
          (holds_members w r.0)
  unfolding take_reply claim_scanner
  take_reply-Balance b self none s e = omega arith
  take_reply-Balance b self (some m) s e =
      let c = sd_bus_message_read m in
      elim (Bool-cases (is_negative (env.number s.tick c))) [
        | inl h ↦ rw h (ground arith)
        | inr h ↦ rw h (ground arith)
      ]

  take_bus-Balance :
      (self : Members) (p : Option ℕ) (s : World)
      → self.bus ≡ none
      → self.signal_slot ≡ none
      → let r = take_bus self p env s in
        Balance w s (holds_members w self + held (λ q. w (bus q)) p) r.1 (holds_members w r.0)
  unfolding take_bus
  take_bus-Balance self none s d e = omega arith
  take_bus-Balance self (some b) s d e =
      let c = sd_bus_get_default_device b in
      let m = env.pointer s.tick c in
      ground (arith, take_reply-Balance b (record self { bus = some b }) m (after s c m) e)

  construct-Balance :
      (s : World) → let r = construct env s in Balance w s 0 r.1 (holds_members w r.0)
  unfolding construct
  construct-Balance s =
      let ends = env.pointer s.tick pipe in
      let t = after s pipe ends in
      let p = env.pointer t.tick sd_bus_open_system in
      let self : Members = record {
        cancel_pipe = ends;
        bus = none;
        has_path = false;
        signal_slot = none;
      } in
      ground (arith, take_bus-Balance self p (after t sd_bus_open_system p) refl refl)

  destruct-Balance :
      (self : Members) (s : World) → Balance w s (holds_members w self) (destruct self env s).1 0
  unfolding destruct release_scanner close_pipe
  destruct-Balance self s = ground arith

  -- Whatever fails, `main` has given back all that it made when it returns.
  port_main-Balance :
      (rounds : List Round) (granted : Bool) (s : World)
      → Balance w s 0 (port_main rounds granted env s).1 0
  unfolding port_main get_current_username
  port_main-Balance rounds granted s =
      let t = after (after s getpwuid_r none) endpwent none in
      let (fp, u) = construct env t in omega (arith, construct-Balance t, destruct-Balance fp u)
