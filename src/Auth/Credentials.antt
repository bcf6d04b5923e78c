-- ===== src/Auth/Credentials.antt =====
-- backend/app/services/credentials.py and `verify_login`: the administrator's password is that of the
-- database, and that of the environment while the database has none.
pub mod Stored
use clusteration.Base.{
  ℕ, String, Bool, true, false, not, List, [], ◌∷◌, ◌++◌, first, adjust, Option, none, some, ◌=ₛ◌,
  if◌then◌else◌,
}
use clusteration.Base.Text.{strip, lower}
use clusteration.Base.Exec.{Result, ok, err}
use clusteration.Entities.{AdminCredential}
use clusteration.Settings.{Settings}
use clusteration.Database.{Db}
use clusteration.Auth.{Libraries}

unfoldable pub norm_username : String → String
unfolding strip lower
norm_username username = lower (strip username)

abbrev pub is_of : String → AdminCredential → Bool
is_of uname c = c.username =ₛ uname

abbrev pub stored : Settings → Db → Option AdminCredential
unfolding norm_username
stored settings db = first (is_of (norm_username settings.admin_username)) db.credentials

abbrev add_credential : String → String → Db → Db
add_credential uname password_hash db = record db {
  credentials = db.credentials ++ record { username = uname; password_hash = password_hash } ∷ [];
}

-- On the first start the hash of the environment is stored.
abbrev seed_missing : Settings → Option AdminCredential → Db → Db
unfolding norm_username
seed_missing settings (some c) db = db
seed_missing settings none db =
    if settings.admin_password_hash =ₛ ""
    then db
    else add_credential (norm_username settings.admin_username) settings.admin_password_hash db

unfoldable pub seed_admin_credential : Settings → Db → Db
unfolding norm_username
seed_admin_credential settings db =
    if norm_username settings.admin_username =ₛ ""
    then db
    else seed_missing settings (stored settings db) db

-- `except Exception: return False`
abbrev pub or_false : Result Bool → Bool
or_false (ok b) = b
or_false (err e) = false

module _ (lib : Libraries) where
  unfoldable pub verify_login : String → String → Settings → Result Bool
  unfolding norm_username
  verify_login username password settings =
      if not (norm_username username =ₛ norm_username settings.admin_username)
      then ok false
      else if settings.admin_password_hash =ₛ ""
      then ok false
      else lib.verify password settings.admin_password_hash

  unfoldable pub verify_stored : String → String → Settings → Option AdminCredential → Result Bool
  unfolding verify_login
  verify_stored username password settings (some c) =
      ok (or_false (lib.verify password c.password_hash))
  verify_stored username password settings none = verify_login username password settings

  unfoldable pub verify_admin : Db → String → String → Settings → Result Bool
  unfolding norm_username verify_stored
  verify_admin db username password settings =
      if not (norm_username username =ₛ norm_username settings.admin_username)
      then ok false
      else verify_stored username password settings (stored settings db)

  set_stored : String → String → Option AdminCredential → Db → Db
  set_stored uname new_hash (some c) db = record db {
    credentials =
        adjust (is_of uname) (λ (x : AdminCredential). record x { password_hash = new_hash })
          db.credentials;
  }
  set_stored uname new_hash none db = add_credential uname new_hash db

  -- `salt` is that of the new hash.
  unfoldable pub set_admin_password : ℕ → Settings → String → Db → Db
  unfolding norm_username set_stored
  set_admin_password salt settings new_password db =
      set_stored (norm_username settings.admin_username) (lib.hash salt new_password)
        (stored settings db) db
