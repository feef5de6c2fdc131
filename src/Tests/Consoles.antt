-- ===== src/Tests/Consoles.antt =====
-- The line of auth.back/example/main.c on concrete input.
use kirilock.Base.{
  ℕ, ◌≡◌, refl, true, false, Option, none, some, List, [], ◌∷◌, arith, if◌then◌else◌,
}
use kirilock.Auth.Terminal.{
  Termios, Console, global_sig_handler, console_input_start, exit_process, console_restored,
}
use kirilock.Auth.Console.{Line, Round, read_loop}
use kirilock.Auth.Console.Editing.{Holds, edit_loop, read_loop-refines}
use kirilock.Auth.Console.Typing.{typing, typing-verified}
use kirilock.Auth.Console.Secret.{IsClean, IsInside, read_loop-IsClean, read_loop_bounds}

abbrev pub blank_line : Line
blank_line = record { cells = λ i. 7; len = 0 }

abbrev key : Option ℕ → Round
key c = record {
  authenticated = false;
  interrupted = false;
  fp_running = true;
  pw_running = false;
  input = c;
}

-- "a", no input, "b", DEL, "c", a newline, "d", and the end of both libraries.
abbrev pub keys : List Round
keys =
    key (some 97)
    ∷ key none
    ∷ key (some 98)
    ∷ key (some 127)
    ∷ key (some 99)
    ∷ key (some 10)
    ∷ key (some 100)
    ∷ record (key (some 101)) { fp_running = false }
    ∷ []

pub blank_line-Holds : Holds blank_line []
blank_line-Holds = record { same_length = refl; fits = omega arith; shown = tt }

keys-submitted : (read_loop keys blank_line).0 ≡ (97 ∷ 99 ∷ []) ∷ []
keys-submitted = (read_loop-refines keys blank_line [] blank_line-Holds).0

read_loop-refines_example :
    let r = read_loop keys blank_line in let q = edit_loop keys [] in (r.0 ≡ q.0) × Holds r.1 q.1
read_loop-refines_example = read_loop-refines keys blank_line [] blank_line-Holds

read_loop-IsClean_example : IsClean blank_line.cells (read_loop keys blank_line).1 1
read_loop-IsClean_example = read_loop-IsClean keys blank_line 1 refl

read_loop_bounds_example : IsInside blank_line.cells (read_loop keys blank_line).1 512
read_loop_bounds_example = read_loop_bounds keys blank_line 512 (omega arith) (omega arith)

typing-verified_example :
    let r = read_loop (typing (97 ∷ 32 ∷ 126 ∷ [])) blank_line in
    (r.0 ≡ (97 ∷ 32 ∷ 126 ∷ []) ∷ []) × (r.1.len ≡ 0)
typing-verified_example =
    typing-verified (97 ∷ 32 ∷ 126 ∷ []) blank_line (refl, (refl, (refl, tt))) (omega arith)
      (omega arith) refl

-- What both calls do on a terminal.
abbrev get : Termios → Termios → Termios
get now old = now

abbrev put : Termios → Termios → Termios
put old new = new

abbrev console : Console
console = record {
  terminal = record { echo = true; icanon = true; others = 3 };
  orig_termios = record { echo = false; icanon = false; others = 0 };
  termios_saved = false;
  handlers = 0;
  interrupted = false;
}

console_restored_example :
    let d = console_input_start get put console in
    let e = if true then global_sig_handler d else d in
    (d.terminal.echo ≡ false)
    × (d.terminal.icanon ≡ false)
    × ((exit_process get put e.handlers e).terminal ≡ console.terminal)
console_restored_example = console_restored get put console true (λ now old. refl) (λ old new. refl)
