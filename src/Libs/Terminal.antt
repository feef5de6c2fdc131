-- ===== src/Libs/Terminal.antt =====
-- libs/auth/example/main.cpp: the terminal's settings and the signal handler. `tcgetattr` and
-- `tcsetattr` are parameters.
use kirilock.Base.{suc, ◌≡◌, refl, true, false, if◌then◌else◌}
use kirilock.Auth.Terminal as C
use kirilock.Auth.Terminal.{Termios, Console}

global_sig_handler : Console → Console
global_sig_handler c = record c { interrupted = true }

module _ (tcgetattr tcsetattr : Termios → Termios → Termios) where
  restore_tty : Console → Console
  restore_tty c =
      if c.termios_saved then record c { terminal = tcsetattr c.terminal c.orig_termios } else c

  console_input_start : Console → Console
  console_input_start c =
      let saved : Console = record c {
        orig_termios = tcgetattr c.terminal c.orig_termios;
        termios_saved = true;
      } in
      let registered : Console = record saved { handlers = suc saved.handlers } in
      let raw : Termios = record registered.orig_termios { echo = false; icanon = false } in
      record registered { terminal = tcsetattr registered.terminal raw }

  -- The port sets the terminal, takes a signal and restores the terminal as the C example does.
  terminal-same :
      (c : Console)
      → (console_input_start c ≡ C.console_input_start tcgetattr tcsetattr c)
        × (restore_tty c ≡ C.restore_tty tcgetattr tcsetattr c)
        × (global_sig_handler c ≡ C.global_sig_handler c)
  unfolding console_input_start restore_tty global_sig_handler C.console_input_start C.restore_tty
      C.global_sig_handler
  terminal-same c = (refl, refl, refl)
