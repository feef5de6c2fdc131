-- ===== src/Auth/Console/Typing.antt =====
-- A password typed into the loop of auth.back/example/main.c, and what is verified.
use mathlib.Core.List.{append_assoc, append-nil}
use kirilock.Base.{
  ℕ, ◌+◌, ◌-◌, ◌<◌, ◌≡◌, refl, ap, ◌∙◌, true, false, none, some, List, [], ◌∷◌, ◌++◌, length,
  length-append, arith,
}
use kirilock.Auth.Console.{max_pass_len, Line, Round, read_loop, is_printable}
use kirilock.Auth.Console.Editing.{Holds, edit_loop, edit, read_loop-refines}

-- A round in which the loop goes on and reads this byte.
abbrev pub keystroke : ℕ → Round
keystroke c = record {
  authenticated = false;
  interrupted = false;
  fp_running = true;
  pw_running = false;
  input = some c;
}

-- The bytes of a password, each as a keystroke, and a newline.
abbrev pub typing : List ℕ → List Round
typing [] = keystroke 10 ∷ []
typing (c ∷ cs) = keystroke c ∷ typing cs

abbrev pub AllPrintable : List ℕ → Type 0
AllPrintable [] = Unit {0}
AllPrintable (c ∷ cs) = (is_printable c ≡ true) × AllPrintable cs

edit_printable :
    (c : ℕ) (typed : List ℕ)
    → is_printable c ≡ true
    → length typed < max_pass_len - 1
    → edit c typed ≡ (none, typed ++ c ∷ [])
edit_printable c typed p h = ground arith

edit_typing :
    (cs typed : List ℕ)
    → AllPrintable cs
    → length typed + length cs < max_pass_len
    → 0 < length typed + length cs
    → edit_loop (typing cs) typed ≡ ((typed ++ cs) ∷ [], [])
edit_typing [] typed a h k = rw (append-nil typed) (ground arith)
edit_typing (c ∷ cs) typed a h k =
    let e =
      edit_typing cs (typed ++ c ∷ []) a.1 (omega (arith, length-append typed (c ∷ [])))
        (omega (arith, length-append typed (c ∷ []))) in
    rw (edit_printable c typed a.0 (omega arith), e, append_assoc typed (c ∷ []) cs) refl

-- A password of printable bytes, not empty and shorter than the array, that is typed into an empty
-- line and followed by a newline is verified as it was typed, and nothing else is; the line is
-- empty again.
pub typing-verified :
    (cs : List ℕ) (line : Line)
    → AllPrintable cs
    → 0 < length cs
    → length cs < max_pass_len
    → line.len ≡ 0
    → let r = read_loop (typing cs) line in (r.0 ≡ cs ∷ []) × (r.1.len ≡ 0)
typing-verified cs line a k h e =
    let v : Holds line [] = record { same_length = e; fits = omega arith; shown = tt } in
    let r = read_loop-refines (typing cs) line [] v in
    let f = edit_typing cs [] a (omega arith) (omega arith) in
    (r.0 ∙ ap (λ p. p.0) f, r.1.same_length ∙ ap (λ p. length p.1) f)
