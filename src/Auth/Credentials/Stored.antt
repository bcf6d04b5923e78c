-- ===== src/Auth/Credentials/Stored.antt =====
-- The password that is set is the one that is verified from then on.
use clusteration.Base.{ℕ, ◌≡◌, refl, inl, inr, String, some, Option-cases, text_refl}
use clusteration.Base.Exec.{ok}
use clusteration.Entities.{AdminCredential}
use clusteration.Settings.{Settings}
use clusteration.Database.{Db}
use clusteration.Database.Lookup.{first-adjust_found, first-append_none}
use clusteration.Auth.{Libraries}
use clusteration.Auth.Credentials.{
  is_of, stored, norm_username, or_false, verify_stored, verify_admin, set_stored,
  set_admin_password,
}

module _ (lib : Libraries) (settings : Settings) where
  stored-set_admin_password :
      (salt : ℕ) (new_password : String) (db : Db)
      → (c : AdminCredential) × (stored settings
            (set_admin_password lib salt settings new_password db)
          ≡ some c)
        × (c.password_hash ≡ lib.hash salt new_password)
  unfolding set_admin_password set_stored
  stored-set_admin_password salt new_password db = elim (Option-cases (stored settings db)) [
    | inl p ↦ rw p (
      _,
      first-append_none (is_of (norm_username settings.admin_username)) db.credentials _ p
          (text_refl (norm_username settings.admin_username)),
      refl,
    )
    | inr (c, p) ↦ rw p (
      _,
      first-adjust_found (is_of (norm_username settings.admin_username)) _ (λ x q. q) db.credentials
          c p,
      refl,
    )
  ]

  -- Behind a change of the password, a login with the administrator's name is verified by the hash of
  -- the new password, and by nothing else.
  pub verify_admin-set_admin_password :
      (salt : ℕ) (new_password username password : String) (db : Db)
      → norm_username username ≡ norm_username settings.admin_username
      → verify_admin lib
          (set_admin_password lib salt settings new_password db)
          username
          password
          settings
        ≡ ok (or_false (lib.verify password (lib.hash salt new_password)))
  unfolding verify_admin verify_stored
  verify_admin-set_admin_password salt new_password username password db e =
      let (c, found, hashed) = stored-set_admin_password salt new_password db in
      rw (e, text_refl (norm_username settings.admin_username), found, hashed) refl

  pub set_admin_password-resets :
      (salt : ℕ) (new_password : String) (db : Db)
      → ((set_admin_password lib salt settings new_password db).resets ≡ db.resets)
        × ((set_admin_password lib salt settings new_password db).next_id ≡ db.next_id)
  unfolding set_admin_password set_stored
  set_admin_password-resets salt new_password db = elim (Option-cases (stored settings db)) [
    | inl p ↦ rw p (refl, refl)
    | inr (c, p) ↦ rw p (refl, refl)
  ]
