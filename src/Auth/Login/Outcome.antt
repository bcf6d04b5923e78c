-- ===== src/Auth/Login/Outcome.antt =====
-- What a login and a change of the password come to.
use clusteration.Base.{
  ℕ, ◌≤◌, ◌<◌, ◌≡◌, refl, ap, ◌∙◌, ◌↔◌, inl, inr, String, Bool, true, false, length, arith,
  Bool-cases,
}
use clusteration.Base.Exec.{Result, ok, err}
use clusteration.Settings.{Settings}
use clusteration.Database.{Db}
use clusteration.Auth.{Panel, Libraries, VerifiesOwnHashes, Visit, visitor, audited}
use clusteration.Auth.Throttle.{recent}
use clusteration.Auth.Credentials.{
  norm_username, verify_stored, verify_admin, set_admin_password, or_false,
}
use clusteration.Auth.Credentials.Stored.{
  verify_admin-set_admin_password, set_admin_password-resets,
}
use clusteration.Auth.Login.{
  login_window, login_max_fails, logout, login, admit, change_password, change_verified,
  require_admin,
}

-- The peer's failures of the last five minutes do not fill its allowance.
abbrev pub IsUnblocked : Visit → Panel → Type 0
IsUnblocked v w =
    length (recent login_window v.monotonic (w.login_fails (visitor v.req))) < login_max_fails

module _ (lib : Libraries) (settings : Settings) where
  login_iff-by :
      (v : Visit) (username password : String) (w : Panel) (verdict : Result Bool)
      → verify_admin lib w.db username password settings ≡ verdict
      → w.authenticated ≡ false
      → ((login lib settings v username password w).1.authenticated ≡ true)
        ↔ (IsUnblocked v w × (verdict ≡ ok true))
  unfolding login admit audited
  login_iff-by v username password w (ok true) e out = rw (e) (ground arith)
  login_iff-by v username password w (ok false) e out = rw (e) (ground arith)
  login_iff-by v username password w (err x) e out = rw (e) (ground arith)

  -- A browser that is not logged in is logged in by `/login` exactly if its peer has failed fewer than
  -- eight times within the last five minutes and the credentials are verified.
  login_iff :
      (v : Visit) (username password : String) (w : Panel)
      → w.authenticated ≡ false
      → ((login lib settings v username password w).1.authenticated ≡ true)
        ↔ (IsUnblocked v w × (verify_admin lib w.db username password settings ≡ ok true))
  login_iff v username password w = login_iff-by v username password w _ refl

  change_password-sets-by :
      (v : Visit) (current new_password : String) (w w' : Panel) (verdict : Result Bool)
      → verify_admin lib w.db settings.admin_username current settings ≡ verdict
      → change_password lib settings v current new_password w ≡ (ok tt, w')
      → (verdict ≡ ok true)
        × (w'.db.credentials
            ≡ (set_admin_password lib v.draw settings new_password w.db).credentials)
  unfolding change_password require_admin change_verified audited
  change_password-sets-by v current new_password w w' (ok true) e h = ground arith
  change_password-sets-by v current new_password w w' (ok false) e h = ground arith
  change_password-sets-by v current new_password w w' (err x) e h = ground arith

  verify_admin-same :
      (username password : String) (db db' : Db)
      → db'.credentials ≡ db.credentials
      → verify_admin lib db' username password settings
        ≡ verify_admin lib db username password settings
  unfolding verify_admin verify_stored
  verify_admin-same username password db db' e = rw e refl

  login-admits :
      (v : Visit) (username password : String) (w : Panel)
      → IsUnblocked v w
      → verify_admin lib w.db username password settings ≡ ok true
      → ((login lib settings v username password w).0 ≡ ok true)
        × ((login lib settings v username password w).1.authenticated ≡ true)
  unfolding login admit audited
  login-admits v username password w free e = rw e (ground arith)

  -- A login with a password that was set for the administrator last.
  pub login_with_set :
      (v : Visit) (salt : ℕ) (username password : String) (db : Db) (w : Panel)
      → VerifiesOwnHashes lib
      → norm_username username ≡ norm_username settings.admin_username
      → w.db.credentials ≡ (set_admin_password lib salt settings password db).credentials
      → IsUnblocked v w
      → (login lib settings v username password w).1.authenticated ≡ true
  login_with_set v salt username password db w own same set free =
      (login-admits v username password w free (
        verify_admin-same username password _ w.db set
        ∙ verify_admin-set_admin_password lib settings salt password username password db same
        ∙ ap (λ r. ok (or_false r)) (own.verify-hash salt password))).1

  -- After a change of the password that has succeeded, a peer that is not blocked logs in with the new
  -- password and the administrator's name, in whatever case and with white space around it.
  pub change_password-login :
      (v later : Visit) (current new_password username : String) (w w' : Panel)
      → VerifiesOwnHashes lib
      → norm_username username ≡ norm_username settings.admin_username
      → change_password lib settings v current new_password w ≡ (ok tt, w')
      → IsUnblocked later w'
      → (login lib settings later username new_password w').1.authenticated ≡ true
  change_password-login v later current new_password username w w' own same changed free =
      login_with_set later v.draw username new_password w.db w' own same
        (change_password-sets-by v current new_password w w' _ refl changed).1 free

  login-db-by :
      (v : Visit) (username password : String) (w : Panel) (verdict : Result Bool)
      → verify_admin lib w.db username password settings ≡ verdict
      → ((login lib settings v username password w).1.db.resets ≡ w.db.resets)
        × (w.db.next_id ≤ (login lib settings v username password w).1.db.next_id)
  unfolding login admit audited
  login-db-by v username password w (ok true) e = rw e (ground arith)
  login-db-by v username password w (ok false) e = rw e (ground arith)
  login-db-by v username password w (err x) e = rw e (ground arith)

  -- The three handlers leave the codes as they are.
  pub login-db :
      (v : Visit) (username password : String) (w : Panel)
      → ((login lib settings v username password w).1.db.resets ≡ w.db.resets)
        × (w.db.next_id ≤ (login lib settings v username password w).1.db.next_id)
  login-db v username password w = login-db-by v username password w _ refl

  pub logout-db :
      (v : Visit) (w : Panel)
      → ((logout settings v w).1.db.resets ≡ w.db.resets)
        × (w.db.next_id ≤ (logout settings v w).1.db.next_id)
  unfolding logout audited
  logout-db v w = ground arith

  change_verified-db :
      (v : Visit) (new_password : String) (w : Panel) (verdict : Result Bool)
      → ((change_verified lib settings v new_password verdict w).1.db.resets ≡ w.db.resets)
        × (w.db.next_id ≤ (change_verified lib settings v new_password verdict w).1.db.next_id)
  unfolding change_verified audited
  change_verified-db v new_password w (ok true) =
      ground (arith, set_admin_password-resets lib settings v.draw new_password w.db)
  change_verified-db v new_password w (ok false) = ground arith
  change_verified-db v new_password w (err x) = ground arith

  pub change_password-db :
      (v : Visit) (current new_password : String) (w : Panel)
      → ((change_password lib settings v current new_password w).1.db.resets ≡ w.db.resets)
        × (w.db.next_id ≤ (change_password lib settings v current new_password w).1.db.next_id)
  unfolding change_password require_admin change_verified audited
  change_password-db v current new_password w = elim (Bool-cases w.authenticated) [
    | inl p ↦ simp p (change_verified-db v new_password w _)
    | inr p ↦ simp p (refl, omega arith)
  ]
