-- ===== src/Auth/Console/Editing.antt =====
-- The line of auth.back/example/main.c as a list of the bytes typed.
use mathlib.Core.Path.{ap₂}
use kirilock.Base.{
  sym, ℕ, zero, suc, ◌+◌, ◌-◌, ◌≤◌, ◌<◌, ◌≡◌, refl, ap, ◌∙◌, true, false, Bool-cases, inl, inr,
  Option, none, some, List, [], ◌∷◌, ◌++◌, ltb, update, if◌then◌else◌, length, drop_last,
  length-append, length-drop_last, arith,
}
use kirilock.Auth.Console.{
  max_pass_len, Line, c_string, submit, rub_out, type_in, is_newline, is_rubout, is_printable,
  handle_char, Round, goes_on, submitted, handle_input, read_loop,
}

-- The line editor that the user sees: the bytes typed so far, at most one less than the array holds.
abbrev pub edit : ℕ → List ℕ → Option (List ℕ) × List ℕ
edit c typed =
    if is_newline c
    then (if ltb 0 (length typed) then some typed else none, [])
    else if is_rubout c
    then (none, drop_last typed)
    else if is_printable c
    then (none, if ltb (length typed) (max_pass_len - 1) then typed ++ c ∷ [] else typed)
    else (none, typed)

-- From cell `i` on the array holds these bytes, none of them NUL.
abbrev pub Shows : (ℕ → ℕ) → ℕ → List ℕ → Type 0
Shows cells i [] = Unit {0}
Shows cells i (x ∷ xs) = (cells i ≡ x) × (0 < x) × Shows cells (suc i) xs

-- The line holds the bytes typed, and there is room for a NUL.
pub record Holds (line : Line) (typed : List ℕ) : Type 0 where
  pub same_length : line.len ≡ length typed
  pub fits : line.len < max_pass_len
  pub shown : Shows line.cells 0 typed

Shows-update :
    (cells : ℕ → ℕ) (i j c : ℕ) (xs : List ℕ)
    → Shows cells i xs
    → i + length xs ≤ j
    → Shows (update cells j c) i xs
Shows-update cells i j c [] v h = tt
Shows-update cells i j c (x ∷ xs) v h =
    (ground arith, v.1, Shows-update cells (suc i) j c xs v.2 (omega arith))

Shows-append :
    (cells : ℕ → ℕ) (i : ℕ) (xs : List ℕ) (c : ℕ)
    → Shows cells i xs
    → cells (i + length xs) ≡ c
    → 0 < c
    → Shows cells i (xs ++ c ∷ [])
Shows-append cells i [] c v e h = (ap cells (omega arith) ∙ e, h, tt)
Shows-append cells i (x ∷ xs) c v e h =
    (v.0, v.1, Shows-append cells (suc i) xs c v.2 (ap cells (omega arith) ∙ e) h)

Shows-drop_last :
    (cells : ℕ → ℕ) (i : ℕ) (xs : List ℕ) → Shows cells i xs → Shows cells i (drop_last xs)
Shows-drop_last cells i [] v = tt
Shows-drop_last cells i (x ∷ []) v = tt
Shows-drop_last cells i (x ∷ y ∷ xs) v = (v.0, v.1, Shows-drop_last cells (suc i) (y ∷ xs) v.2)

-- The string up to the NUL is the bytes typed.
c_string-Shows :
    (n : ℕ) (cells : ℕ → ℕ) (i : ℕ) (xs : List ℕ)
    → Shows cells i xs
    → cells (i + length xs) ≡ 0
    → length xs < n
    → c_string n cells i ≡ xs
unfolding c_string
c_string-Shows zero cells i xs v e h = absurd (omega arith)
c_string-Shows (suc n) cells i [] v e h =
    let here : i ≡ i + 0 = omega arith in
    let ended : cells i ≡ 0 = ap cells here ∙ e in ground arith
c_string-Shows (suc n) cells i (x ∷ xs) v e h =
    ground (arith, c_string-Shows n cells (suc i) xs v.2 (ap cells (omega arith) ∙ e) (omega arith))

submit-Holds :
    (line : Line) (typed : List ℕ)
    → Holds line typed
    → let r = submit line in
      Holds r.1 [] × (r.0 ≡ (if ltb 0 (length typed) then some typed else none))
unfolding submit
submit-Holds line typed v =
    let ended = update line.cells line.len 0 in
    let e : c_string max_pass_len ended 0 ≡ typed =
      c_string-Shows max_pass_len ended 0 typed
        (Shows-update line.cells 0 line.len 0 typed v.shown (omega (arith, v.same_length)))
        (ground (arith, v.same_length)) (omega (arith, v.same_length, v.fits)) in
    elim (Bool-cases (ltb 0 line.len)) [
      | inl h ↦
          let h' : ltb 0 (length typed) ≡ true = ap (ltb 0) (sym v.same_length) ∙ h in
          rw (h, h') (record { same_length = refl; fits = omega arith; shown = tt }, ap some e)
      | inr h ↦
          let h' : ltb 0 (length typed) ≡ false = ap (ltb 0) (sym v.same_length) ∙ h in
          rw (h, h') (record { same_length = ground arith; fits = v.fits; shown = tt }, refl)
    ]

rub_out-Holds :
    (line : Line) (typed : List ℕ) → Holds line typed → Holds (rub_out line) (drop_last typed)
unfolding rub_out
rub_out-Holds line typed v =
    let e = length-drop_last typed in
    let shown = Shows-drop_last line.cells 0 typed v.shown in
    let cut =
      Shows-update line.cells 0 (line.len - 1) 0 (drop_last typed) shown
        (omega (arith, v.same_length)) in
    elim (Bool-cases (ltb 0 line.len)) [
      | inl h ↦ rw h (record {
        same_length = omega (arith, v.same_length);
        fits = omega (arith, v.fits);
        shown = cut;
      })
      | inr h ↦
          rw h
            (record { same_length = ground (arith, v.same_length); fits = v.fits; shown = shown })
    ]

type_in-Holds :
    (c : ℕ) (line : Line) (typed : List ℕ)
    → 0 < c
    → Holds line typed
    → Holds
        (type_in c line)
        (if ltb (length typed) (max_pass_len - 1) then typed ++ c ∷ [] else typed)
unfolding type_in
type_in-Holds c line typed h v =
    let written = update line.cells line.len c in
    let kept = Shows-update line.cells 0 line.len c typed v.shown (omega (arith, v.same_length)) in
    let here : written (0 + length typed) ≡ c = ground (arith, v.same_length) in
    let shown = Shows-append written 0 typed c kept here h in
    let e = length-append typed (c ∷ []) in
    elim (Bool-cases (ltb line.len (max_pass_len - 1))) [
      | inl k ↦
          let k' : ltb (length typed) (max_pass_len - 1) ≡ true =
            ap (λ n. ltb n (max_pass_len - 1)) (sym v.same_length) ∙ k in
          rw (k, k')
            (record {
              same_length = omega (arith, v.same_length);
              fits = ground arith;
              shown = shown;
            })
      | inr k ↦
          let k' : ltb (length typed) (max_pass_len - 1) ≡ false =
            ap (λ n. ltb n (max_pass_len - 1)) (sym v.same_length) ∙ k in
          rw (k, k') v
    ]

-- What each byte does to the line, it does to the bytes typed.
handle_char-Holds :
    (c : ℕ) (line : Line) (typed : List ℕ)
    → Holds line typed
    → let r = handle_char c line in let q = edit c typed in Holds r.1 q.1 × (r.0 ≡ q.0)
unfolding handle_char
handle_char-Holds c line typed v = elim (Bool-cases (is_newline c)) [
  | inl h ↦ rw h (submit-Holds line typed v)
  | inr h ↦ elim (Bool-cases (is_rubout c)) [
    | inl k ↦ rw (h, k) (rub_out-Holds line typed v, refl)
    | inr k ↦ elim (Bool-cases (is_printable c)) [
      | inl l ↦ rw (h, k, l) (type_in-Holds c line typed (ground arith) v, refl)
      | inr l ↦ rw (h, k, l) (v, refl)
    ]
  ]
]

-- The same loop over the bytes typed.
abbrev pub edit_input : Option ℕ → List ℕ → Option (List ℕ) × List ℕ
edit_input none typed = (none, typed)
edit_input (some c) typed = edit c typed

abbrev pub edit_loop : List Round → List ℕ → List (List ℕ) × List ℕ
edit_loop [] typed = ([], typed)
edit_loop (r ∷ rounds) typed =
    let (out, typed') = edit_input r.input typed in
    let rest = edit_loop rounds typed' in
    if goes_on r then (submitted out rest.0, rest.1) else ([], typed)

handle_input-Holds :
    (input : Option ℕ) (line : Line) (typed : List ℕ)
    → Holds line typed
    → let r = handle_input input line in
      let q = edit_input input typed in Holds r.1 q.1 × (r.0 ≡ q.0)
handle_input-Holds none line typed v = (v, refl)
handle_input-Holds (some c) line typed v = handle_char-Holds c line typed v

-- The loop of the example over its array and length does what the same loop does on the list of the
-- bytes typed: the same passwords are submitted, in order, and the array holds the list afterwards.
-- It held it before.
pub read_loop-refines :
    (rounds : List Round) (line : Line) (typed : List ℕ)
    → Holds line typed
    → let r = read_loop rounds line in let q = edit_loop rounds typed in (r.0 ≡ q.0) × Holds r.1 q.1
unfolding read_loop
read_loop-refines [] line typed v = (refl, v)
read_loop-refines (r ∷ rounds) line typed v =
    let (out, line') = handle_input r.input line in
    let (out', typed') = edit_input r.input typed in
    let h = handle_input-Holds r.input line typed v in
    let k = read_loop-refines rounds line' typed' h.0 in
    elim (Bool-cases (goes_on r)) [
      | inl e ↦ rw e (ap₂ submitted h.1 k.0, k.1)
      | inr e ↦ rw e (refl, v)
    ]
