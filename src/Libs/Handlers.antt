-- ===== src/Libs/Handlers.antt =====
-- `Password::set_handlers` of libs/auth/src/password.cpp and `Fingerprint::set_handlers` of
-- libs/auth/src/fingerprint.cpp, which are the same code.
use kirilock.Base.{suc, ◌≡◌, refl, Bool, true, Bool-cases, inl, inr, not, ◌&&◌, if◌then◌else◌}
use kirilock.Auth.Handlers as C
use kirilock.Auth.Handlers.{Handlers}

-- With the handlers of a client, of which only `on_init` matters here.
set_handlers : Bool → Handlers → Handlers
set_handlers on_init self =
    let stored : Handlers = record self { on_init = on_init } in
    if not stored.init_called && stored.on_init
    then record stored { init_called = true; inits = suc stored.inits }
    else stored

-- Both classes do what the C library does.
set_handlers-same : (h : Bool) (self : Handlers) → set_handlers h self ≡ C.set_handlers h self
unfolding set_handlers C.set_handlers
set_handlers-same h self = elim (Bool-cases (not self.init_called && h)) [
  | inl e ↦ rw e refl
  | inr e ↦ rw e refl
]
