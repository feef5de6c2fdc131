-- ===== src/Libs/Client.antt =====
-- What `Password` of libs/auth/src/password.cpp and `Fingerprint` of libs/auth/src/fingerprint.cpp
-- keep for their client: the name, and a pointer that only the client uses.
use kirilock.Base.{ℕ, ◌≡◌, refl, List}

record Client : Type 0 where
  username : List ℕ
  user_data : ℕ

get_username : Client → List ℕ
get_username self = self.username

get_user_data : Client → ℕ
get_user_data self = self.user_data

set_user_data : ℕ → Client → Client
set_user_data pointer self = record self { user_data = pointer }

-- The client gets the pointer that it has set last, and the name stays.
set_user_data-kept :
    (first last : ℕ) (self : Client)
    → let r = set_user_data last (set_user_data first self) in
      (get_user_data r ≡ last) × (get_username r ≡ get_username self)
unfolding set_user_data get_user_data get_username
set_user_data-kept first last self = (refl, refl)
