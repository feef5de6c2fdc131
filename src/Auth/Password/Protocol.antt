-- ===== src/Auth/Password/Protocol.antt =====
-- A description of the order of the handlers of auth.back/src/password.c.
use kirilock.Base.{true, false, List, [], ◌∷◌}
use kirilock.Auth.Password.{
  Report, on_begin, on_finish, on_error_system, on_error_auth_failed, on_end, on_stop, exited,
  unwaited,
}

-- Where a session stands: none, begun, its `status` reads as an exit with 0 or not, whether
-- `waitpid` has stored the child's or has failed, a verdict was given, or ended; and where a report
-- came out of turn.
pub data Phase : Type 0 where
  quiet begun passed refused judged ended broken : Phase

abbrev pub next : Phase → Report → Phase
next quiet on_begin = begun
next ended on_begin = begun
next begun (exited true) = passed
next begun (exited false) = refused
next begun (unwaited true) = passed
next begun (unwaited false) = refused
next begun on_error_system = judged
next passed on_finish = judged
next refused on_error_auth_failed = judged
next passed on_end = ended
next refused on_end = ended
next judged on_end = ended
next ended on_stop = quiet
next _ _ = broken

-- The phase after these reports, the last first.
abbrev pub phase : List Report → Phase
phase [] = quiet
phase (r ∷ rs) = next (phase rs) r
