-- ===== src/Auth/Login.antt =====
-- The handlers of backend/app/api/auth.py for a login, a logout and a change of the password.
pub mod Outcome
pub mod Guesses
use clusteration.Base.{
  ℕ, String, Bool, true, false, List, [], ◌∷◌, ◌++◌, Option, none, some, ◌=ₛ◌, ◌&&◌, not, ltb, leb,
  length, if◌then◌else◌,
}
use clusteration.Base.Text.{strip, chars}
use clusteration.Base.Exec.{Exc, app, Result, ok, err, Exec}
use clusteration.Settings.{Settings}
use clusteration.Auth.{
  Panel, Libraries, Visit, set_hits, visitor, audited, rate_limited, weak_password,
}
use clusteration.Auth.Throttle.{recent}
use clusteration.Auth.Credentials.{verify_admin, set_admin_password}

-- `_LOGIN_WINDOW` and `_LOGIN_MAX_FAILS`
abbrev pub login_window : ℕ
login_window = 300_000

abbrev pub login_max_fails : ℕ
login_max_fails = 8

unfoldable pub is_weak : String → Bool
unfolding strip chars
is_weak password = ltb (chars (strip password)) 8

-- `require_admin`, before a handler that needs it
unfoldable pub require_admin : {A : Type 0} → Exec Panel A → Exec Panel A
require_admin handler w =
    if w.authenticated then handler w else (err (app "UNAUTHORIZED" "not_authenticated" 401), w)

-- `email_enabled` of backend/app/services/email.py
unfoldable pub email_enabled : Settings → Bool
email_enabled settings =
    not (settings.smtp_host =ₛ "")
    && not ((settings.reset_email_to =ₛ "") && (settings.smtp_user =ₛ ""))

pub record Me : Type 0 where
  pub authenticated : Bool
  pub username : String
  pub reset_email : Bool

-- `/me`
me : Settings → Exec Panel Me
unfolding require_admin email_enabled
me settings = require_admin λ w. (
  ok (record {
    authenticated = true;
    username = settings.admin_username;
    reset_email = email_enabled settings;
  }),
  w,
)

-- `/logout`
unfoldable pub logout : Settings → Visit → Exec Panel Bool
unfolding audited
logout settings v w =
    let w = audited v "auth.logout" settings.admin_username w in
    (ok false, record w { authenticated = false })

module _ (lib : Libraries) (settings : Settings) where
  -- What the handler does with the verdict on the credentials.
  admit : Visit → String → List ℕ → Result Bool → Exec Panel Bool
  unfolding visitor audited
  admit v username fails (err e) w = (err e, w)
  admit v username fails (ok false) w =
      let w = record w {
        login_fails = set_hits (visitor v.req) (fails ++ v.monotonic ∷ []) w.login_fails;
      } in
      (
        err (app "INVALID_CREDENTIALS" "credenciais inválidas" 401),
        audited v "auth.login_failed" username w,
      )
  admit v username fails (ok true) w =
      let w = record w {
        login_fails = set_hits (visitor v.req) [] w.login_fails;
        authenticated = true;
      } in
      (ok true, audited v "auth.login" username w)

  -- `/login`
  unfoldable pub login : Visit → String → String → Exec Panel Bool
  unfolding admit visitor audited verify_admin
  login v username password w =
      let ip = visitor v.req in
      let fails = recent login_window v.monotonic (w.login_fails ip) in
      let w = record w { login_fails = set_hits ip fails w.login_fails } in
      let verdict = verify_admin lib w.db username password settings in
      if leb login_max_fails (length fails)
      then (
        err (rate_limited "muitas tentativas; aguarde alguns minutos"),
        audited v "auth.login_blocked" username w,
      )
      else admit v username fails verdict w

  change_verified : Visit → String → Result Bool → Exec Panel Unit
  unfolding audited set_admin_password is_weak
  change_verified v new_password (err e) w = (err e, w)
  change_verified v new_password (ok false) w =
      (err (app "INVALID_CREDENTIALS" "senha atual incorreta" 401), w)
  change_verified v new_password (ok true) w =
      if is_weak new_password then (err weak_password, w) else (
        ok tt,
        audited v "auth.password_changed" settings.admin_username
            (record w { db = set_admin_password lib v.draw settings new_password w.db }),
      )

  -- `/change-password`
  unfoldable pub change_password : Visit → String → String → Exec Panel Unit
  unfolding require_admin change_verified verify_admin
  change_password v current_password new_password = require_admin λ w.
      change_verified v new_password
        (verify_admin lib w.db settings.admin_username current_password settings) w
