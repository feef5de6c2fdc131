-- ===== src/Session/Roles.antt =====
-- The loop of `kl_context_lock_session` over the surfaces.
use kirilock.Base.{ℕ, ◌≡◌, refl, ◌⊎◌, inl, inr, true, Option, is_some, List, [], ◌∷◌, arith}
use kirilock.Platform.{Env, World, M}
use kirilock.Buffer.{Status, success, failure}
use kirilock.Surface.{Surface, kl_surface_attach_lock}
use kirilock.Surface.Role.{HasRole, kl_surface_attach_lock-HasRole}
use kirilock.Session.{attach_rest, attach_all}

-- Every surface of the list has its lock surface.
abbrev pub AllRoles : List Surface → Type 0
AllRoles [] = Unit {0}
AllRoles (surf ∷ rest) = (is_some surf.ext_lock_surface ≡ true) × AllRoles rest

abbrev pub Attached : Status × List Surface → Type 0
Attached r = (r.0 ≡ failure) ⊎ ((r.0 ≡ success) × AllRoles r.1)

attach_rest-Attached :
    (rest : List Surface) (others : M (Status × List Surface)) (r : Status × Surface) (env : Env)
    (s : World)
    → HasRole r
    → Attached (others env s).0
    → Attached (attach_rest rest others r env s).0
unfolding attach_rest
attach_rest-Attached rest others (failure, surf) env s h k = inl refl
attach_rest-Attached rest others (success, surf) env s (inl e) k = ground arith
attach_rest-Attached rest others (success, surf) env s (inr (e, role)) (inl f) = inl f
attach_rest-Attached rest others (success, surf) env s (inr (e, role)) (inr (f, roles)) =
    inr (f, (role, roles))

-- The loop of `kl_context_lock_session` over the surfaces succeeds only with a lock surface on
-- every surface of the list.
pub attach_all-Attached :
    (lock compositor : Option ℕ) (surfs : List Surface) (env : Env) (s : World)
    → Attached (attach_all lock compositor surfs env s).0
unfolding attach_all
attach_all-Attached lock compositor [] env s = inr (refl, tt)
attach_all-Attached lock compositor (surf ∷ rest) env s =
    let (r, t) = kl_surface_attach_lock lock compositor surf env s in
    attach_rest-Attached rest (attach_all lock compositor rest) r env t
      (kl_surface_attach_lock-HasRole lock compositor surf env s)
      (attach_all-Attached lock compositor rest env t)
