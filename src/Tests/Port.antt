-- ===== src/Tests/Port.antt =====
-- The C++ port under libs/auth on concrete input.
use kirilock.Base.{
  ◌⊎◌, ◌&&◌, ℕ, zero, suc, ◌+◌, ◌≤◌, ◌≡◌, refl, inr, ltb, total, if◌then◌else◌, true, false, some,
  none, List, [], ◌∷◌, ◌++◌,
}
use kirilock.Auth.Console.{read_loop}
use kirilock.Auth.Console.Editing.{Holds}
use kirilock.Auth.Password.{new, run}
use kirilock.Libs.Console.{input_loop}
use kirilock.Libs.Console.Same.{loops-same}
use kirilock.Libs.Password.{constructed, Move, work, own, stop, verify, destroy, moves}
use kirilock.Libs.Password.Simulation.{context_of, mirrored_all, moves-simulated}
use kirilock.Auth.Fingerprint as Fingerprint
use kirilock.Auth.Fingerprint.{verify_match, signal, nothing, looping, finished}
use kirilock.Auth.Fingerprint.Invariant.{matches}
use kirilock.Auth.Password.Reports.{successes, misreads}
use kirilock.Auth.Pam as Pam
use kirilock.Libs.Fingerprint as PortFingerprint
use kirilock.Libs.Fingerprint.{Scanner, scanner, start, idle}
use kirilock.Libs.Fingerprint.Extended as PortExtended
use kirilock.Libs.Fingerprint.Extended.{Extended, moves-Extended}
use kirilock.Libs.Fingerprint.Restart.{Started, call_of_start, start-cases}
use kirilock.Libs.Example.{Thread, of_pw, of_fp, advances, launched}
use kirilock.Libs.Example.Sound.{pw_finishes, fp_finishes, port_access_proven}
use kirilock.Libs.Pam.{internal_pam_conv, run_child}
use kirilock.Libs.Pam.Same.{child-same}
use kirilock.Tests.{start as first, locking}
use kirilock.Tests.Consoles.{keys, blank_line, blank_line-Holds}

loops-same_example :
    let r = read_loop keys blank_line in let q = input_loop keys [] in (r.0 ≡ q.0) × Holds r.1 q.1
loops-same_example = loops-same keys blank_line [] blank_line-Holds

abbrev working : ℕ → List Move
working zero = []
working (suc n) = work (some 42) (some true) ∷ working n

-- A password whose assignment fails, a verification that is stopped, and the destructor.
abbrev session : List Move
session =
    own verify none true
      ∷ own verify none true
      ∷ own verify none true
      ∷ own verify none true
      ∷ own verify none true
      ∷ own verify (some 7) true
      ∷ own verify (some 7) true
      ∷ own verify (some 7) true
      ∷ own verify (some 7) true
      ∷ working 4
    ++ stop 1 ∷ stop 1 ∷ stop 1 ∷ working 11
    ++ own destroy none true ∷ own destroy none true ∷ own destroy none true ∷ []

moves-simulated_example :
    context_of (moves session constructed) ≡ run (mirrored_all session constructed) new
moves-simulated_example = moves-simulated session

abbrev scanning : ℕ → List PortFingerprint.Move
scanning zero = []
scanning (suc n) = PortFingerprint.work true (signal verify_match true) ∷ scanning n

-- A scan without a pipe that another thread stops, and a start that joins its worker.
abbrev scans : List PortFingerprint.Move
scans =
    call_of_start false false
    ++ scanning 7
    ++ PortFingerprint.stop 0 ∷ PortFingerprint.stop 0 ∷ scanning 9
    ++ call_of_start true false

moves-Extended_example :
    Extended false
      (Fingerprint.new true true 1)
      (PortExtended.context_of (PortFingerprint.moves scans (scanner false true true 1)))
moves-Extended_example = moves-Extended false true true 1 scans

-- A scanner whose worker has come to its end after a stop.
abbrev halted : Scanner
halted = record (scanner true true true 1) { joinable = true; worker = finished }

start-cases_example :
    let t = PortFingerprint.moves (call_of_start halted.joinable halted.is_running) halted in
    ((halted.joinable && halted.is_running ≡ true) × (t ≡ record halted { place = idle }))
    ⊎ ((halted.joinable && halted.is_running ≡ false) × Started halted t)
start-cases_example = start-cases halted (record { outside = refl; ended = inr (refl, refl) })

-- `VerifyStart` fails at once, and the next `start` starts nothing.
abbrev refused : List PortFingerprint.Move
refused =
    PortFingerprint.work false nothing
    ∷ PortFingerprint.work false nothing
    ∷ PortFingerprint.work false nothing
    ∷ PortFingerprint.work false nothing
    ∷ []

failed_start :
    let o =
      PortFingerprint.moves (call_of_start false false ++ refused) (scanner true true true 1) in
    (o.worker ≡ finished) × (PortFingerprint.moves (call_of_start o.joinable o.is_running) o ≡ o)
unfolding PortFingerprint.moves PortFingerprint.move PortFingerprint.own_step
    PortFingerprint.run_worker
failed_start = (refl, refl)

abbrev threads : List PortFingerprint.Move → List Thread
threads [] = []
threads (m ∷ ms) = of_fp m ∷ of_pw (own verify (some 7) true) ∷ threads ms

port_access_proven_example :
    let p = advances (threads scans) (launched false true true 1) in
    (p.coord.authenticated ≡ ltb 0 (pw_finishes p + fp_finishes p))
    × (p.coord.grants ≡ (if p.coord.authenticated then 1 else 0))
    × (p.coord.grants
        ≤ total successes p.pw.reports + total misreads p.pw.reports + total matches p.fp.reports)
port_access_proven_example = port_access_proven false true true 1 (threads scans)

child-same_example :
    (internal_pam_conv (true ∷ false ∷ []) locking first
      ≡ Pam.internal_pam_conv (true ∷ false ∷ []) locking first)
    × ((run_child 7 locking first).0 ≡ (Pam.pw_child 7 (some 8) locking first).0)
child-same_example = child-same locking (true ∷ false ∷ []) 7 (some 8) first
