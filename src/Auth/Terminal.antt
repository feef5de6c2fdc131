-- ===== src/Auth/Terminal.antt =====
-- auth.back/example/main.c: the terminal's settings and the signal handler. What `tcgetattr` leaves in
-- its buffer, and what `tcsetattr` makes of the terminal, are parameters.
use kirilock.Base.{
  ℕ, zero, suc, ◌≡◌, refl, sym, ap, ◌∙◌, Bool, true, false, Bool-cases, inl, inr, if◌then◌else◌,
}

-- The flags that the example clears, and all other settings.
pub record Termios : Type 0 where
  pub echo : Bool
  pub icanon : Bool
  pub others : ℕ

-- The terminal with the globals of the example; `handlers` counts the calls of `atexit`.
pub record Console : Type 0 where
  pub terminal : Termios
  pub orig_termios : Termios
  pub termios_saved : Bool
  pub handlers : ℕ
  pub interrupted : Bool

unfoldable pub global_sig_handler : Console → Console
global_sig_handler c = record c { interrupted = true }

module _ (tcgetattr tcsetattr : Termios → Termios → Termios) where
  unfoldable pub restore_tty : Console → Console
  restore_tty c =
      if c.termios_saved then record c { terminal = tcsetattr c.terminal c.orig_termios } else c

  unfoldable pub console_input_start : Console → Console
  console_input_start c =
      let orig = tcgetattr c.terminal c.orig_termios in
      let raw : Termios = record orig { echo = false; icanon = false } in
      record c {
        orig_termios = orig;
        termios_saved = true;
        handlers = suc c.handlers;
        terminal = tcsetattr c.terminal raw;
      }

  -- The exit of the process, with as many registered handlers.
  pub exit_process : ℕ → Console → Console
  unfolding restore_tty
  exit_process zero c = c
  exit_process (suc n) c = exit_process n (restore_tty c)

  restore_tty-kept :
      (c : Console)
      → ((old new : Termios) → tcsetattr old new ≡ new)
      → c.terminal ≡ c.orig_termios
      → let d = restore_tty c in (d.terminal ≡ c.terminal) × (d.orig_termios ≡ c.orig_termios)
  unfolding restore_tty
  restore_tty-kept c put e = elim (Bool-cases c.termios_saved) [
    | inl h ↦ rw h (put c.terminal c.orig_termios ∙ sym e, refl)
    | inr h ↦ rw h (refl, refl)
  ]

  exit_process-kept :
      (n : ℕ) (c : Console)
      → ((old new : Termios) → tcsetattr old new ≡ new)
      → c.terminal ≡ c.orig_termios
      → (exit_process n c).terminal ≡ c.terminal
  unfolding exit_process
  exit_process-kept zero c put e = refl
  exit_process-kept (suc n) c put e =
      let (f, g) = restore_tty-kept c put e in
      exit_process-kept n (restore_tty c) put (f ∙ (e ∙ sym g)) ∙ f

  exit_process-restored :
      (n : ℕ) (c : Console)
      → ((old new : Termios) → tcsetattr old new ≡ new)
      → c.termios_saved ≡ true
      → (exit_process (suc n) c).terminal ≡ c.orig_termios
  unfolding exit_process restore_tty
  exit_process-restored n c put e =
      let d : Console = record c {
        termios_saved = true;
        terminal = tcsetattr c.terminal c.orig_termios;
      } in
      let f = put c.terminal c.orig_termios in rw e (exit_process-kept n d put f ∙ f)

  -- After `console_input_start` the terminal of the example neither echoes nor edits its input, and
  -- at the exit the registered handlers leave it as it was before, whether a signal has come in
  -- between or not. `tcgetattr` and `tcsetattr` succeed.
  pub console_restored :
      (c : Console) (signalled : Bool)
      → ((now old : Termios) → tcgetattr now old ≡ now)
      → ((old new : Termios) → tcsetattr old new ≡ new)
      → let d = console_input_start c in
        let e = if signalled then global_sig_handler d else d in
        (d.terminal.echo ≡ false)
        × (d.terminal.icanon ≡ false)
        × ((exit_process e.handlers e).terminal ≡ c.terminal)
  unfolding console_input_start exit_process restore_tty global_sig_handler
  console_restored c signalled get put =
      let orig = tcgetattr c.terminal c.orig_termios in
      let raw : Termios = record orig { echo = false; icanon = false } in
      let f = put c.terminal raw in
      let e = get c.terminal c.orig_termios in
      let d = console_input_start c in
      let back =
        elim signalled
          as (λ b.
            let e = if b then global_sig_handler d else d in
            (exit_process e.handlers e).terminal ≡ orig) [
              | true ↦ exit_process-restored c.handlers (global_sig_handler d) put refl
              | false ↦ exit_process-restored c.handlers d put refl
            ] in
      (ap (λ t. t.echo) f, ap (λ t. t.icanon) f, back ∙ e)
