-- ===== src/Auth/Handlers.antt =====
-- `kl_password_set_handlers` of auth.back/src/password.c and `kl_fingerprint_set_handlers` of
-- auth.back/src/fingerprint.c, which are the same code. The context and the handlers are not NULL.
use kirilock.Base.{ℕ, suc, ◌≡◌, Bool, true, not, ◌&&◌, List, [], ◌∷◌, arith, if◌then◌else◌}

-- Whether `on_init` is set, `init_called`, and how often `on_init` was called.
pub record Handlers : Type 0 where
  pub on_init : Bool
  pub init_called : Bool
  pub inits : ℕ

-- With the handlers of a client, of which only `on_init` matters here.
unfoldable pub set_handlers : Bool → Handlers → Handlers
set_handlers on_init ctx =
    if not ctx.init_called && on_init
    then record { on_init = on_init; init_called = true; inits = suc ctx.inits }
    else record ctx { on_init = on_init }

abbrev set_all : List Bool → Handlers → Handlers
set_all [] ctx = ctx
set_all (h ∷ hs) ctx = set_all hs (set_handlers h ctx)

-- However often handlers are set, `on_init` is called once at most.
set_all_once :
    (hs : List Bool) (ctx : Handlers)
    → ctx.inits ≡ (if ctx.init_called then 1 else 0)
    → let c = set_all hs ctx in c.inits ≡ (if c.init_called then 1 else 0)
unfolding set_handlers
set_all_once [] ctx e = e
set_all_once (h ∷ hs) ctx e = set_all_once hs (set_handlers h ctx) (ground arith)
