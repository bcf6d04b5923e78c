-- ===== src/Auth/Reset.antt =====
-- The handlers of backend/app/api/auth.py for a forgotten password. A code is mailed as it is and
-- stored as a hash; the rows of the codes stay where they are when they are used up.
pub mod Rows
pub mod Keeps
pub mod Codes
pub mod Accepted
pub mod Life
pub mod Owner
use clusteration.Base.{
  ℕ, ◌+◌, ◌*◌, String, ◌<>◌, Bool, true, false, not, ◌&&◌, List, [], ◌∷◌, ◌++◌, Option, none, some,
  ◌=ₛ◌, ◌==◌, ◌||◌, ltb, leb, adjust, if◌then◌else◌,
}
use clusteration.Base.Text.{strip, show, chars, before, after?, take_chars, zeros}
use clusteration.Base.Exec.{Exc, app, Result, ok, err, Exec}
use clusteration.Entities.{PasswordReset}
use clusteration.Settings.{Settings}
use clusteration.Database.{Db}
use clusteration.Auth.{Panel, Mail, Libraries, Visit, visitor, audited, rate_limited, weak_password}
use clusteration.Auth.Throttle.{throttle}
use clusteration.Auth.Credentials.{or_false, set_admin_password}
use clusteration.Auth.Login.{is_weak, email_enabled}

-- `_mask_email`; an address without an `@` is not shown at all.
abbrev masked : String → Option String → String
unfolding before take_chars
masked addr none = "seu email"
masked addr (some domain) =
    let user = before addr "@" in
    (if user =ₛ "" then "*" else take_chars 1 user) <> "***@" <> domain

unfoldable pub mask_email : String → String
unfolding after? before take_chars
mask_email addr = masked addr (after? addr "@")

-- `f"{n:06d}"`
unfoldable pub six_digits : ℕ → String
unfolding show zeros chars
six_digits n = zeros 6 (show n) <> show n

-- `RESET_EMAIL_TO or SMTP_USER`
abbrev pub reset_mailbox : Settings → String
reset_mailbox settings =
    if settings.reset_email_to =ₛ "" then settings.smtp_user else settings.reset_email_to

-- `used_at IS NULL` for this user
abbrev pub is_open : String → PasswordReset → Bool
is_open uname r = r.username =ₛ uname && (elim r.used_at [ none ↦ true | some _ ↦ false ])

abbrev pub is_usable : String → ℕ → PasswordReset → Bool
is_usable uname now r = is_open uname r && ltb now r.expires_at

abbrev pub use_up : ℕ → PasswordReset → PasswordReset
use_up now r = record r { used_at = some now }

abbrev latest : Option PasswordReset → PasswordReset → Option PasswordReset
latest none r = some r
latest (some best) r = if ltb best.created_at r.created_at then some r else some best

-- The rows that the query finds, the newest first, up to the first; `best` is that of the rows before.
abbrev pub newest_from :
    (PasswordReset → Bool) → Option PasswordReset → List PasswordReset → Option PasswordReset
newest_from p best [] = best
newest_from p best (r ∷ rs) = newest_from p (if p r then latest best r else best) rs

abbrev pub newest : (PasswordReset → Bool) → List PasswordReset → Option PasswordReset
newest p = newest_from p none

-- The row, written back.
abbrev pub put_reset : PasswordReset → Db → Db
put_reset r db = record db {
  resets = adjust (λ (x : PasswordReset). x.id == r.id) (λ _. r) db.resets;
}

unfoldable pub reset_body : String → ℕ → String
unfolding show
reset_body code ttl =
    "Olá,\n\n"
    <> "Você (ou alguém) pediu para redefinir a senha do Thiagao Ai Cluster.\n\n"
    <> "Seu código é:  "
    <> code
    <> "\n\n"
    <> "Ele vale por "
    <> show ttl
    <> " minutos e só pode ser usado uma vez.\n"
    <> "Se não foi você, ignore este email — sua senha continua a mesma.\n"

abbrev pub invalid_code : Exc
invalid_code = app "INVALID_CODE" "código inválido ou expirado" 400

module _ (lib : Libraries) (settings : Settings) where
  unfoldable pub drawn_code : Visit → String
  unfolding six_digits
  drawn_code v = six_digits (lib.randbelow v.draw 1_000_000)

  unfoldable pub new_reset : Visit → ℕ → PasswordReset
  unfolding drawn_code
  new_reset v id = record {
    id = id;
    username = settings.admin_username;
    code_hash = lib.hash v.draw (drawn_code v);
    expires_at = v.utc + settings.reset_code_ttl_minutes * 60;
    used_at = none;
    attempts = 0;
    created_at = v.utc;
  }

  -- The codes that are still open are used up, and the new one stands behind them.
  unfoldable pub issue : Visit → Db → Db
  unfolding new_reset
  issue v db = record db {
    resets =
        adjust (is_open settings.admin_username) (use_up v.utc) db.resets
        ++ new_reset v db.next_id ∷ [];
    next_id = db.next_id + 1;
  }

  unfoldable pub reset_mail : Visit → Mail
  unfolding drawn_code reset_body
  reset_mail v = record {
    to = reset_mailbox settings;
    subject = "Código de redefinição de senha — Thiagao Ai Cluster";
    body = reset_body (drawn_code v) settings.reset_code_ttl_minutes;
  }

  forgot_allowed : Visit → Exec Panel String
  unfolding audited mask_email email_enabled issue reset_mail
  forgot_allowed v w =
      let w' = record w { db = issue v w.db } in
      let mail = reset_mail v in
      if not (email_enabled settings) || reset_mailbox settings =ₛ ""
      then (
        err (app "EMAIL_NOT_CONFIGURED" "redefinição por email ainda não está configurada" 503),
        w,
      )
      else if not (lib.accepts_mail mail)
      then (
        err (
            app "EMAIL_SEND_FAILED" "não foi possível enviar o email; verifique a configuração SMTP"
              502),
        w',
      )
      else (
        ok (mask_email mail.to),
        audited v "auth.reset_requested" settings.admin_username
            (record w' { outbox = w'.outbox ++ mail ∷ [] }),
      )

  -- `/forgot`: the masked address to which the mail has gone.
  unfoldable pub forgot : Visit → Exec Panel String
  unfolding throttle visitor forgot_allowed
  forgot v w =
      let (allowed, bucket) = throttle w.reset_requests (visitor v.req) v.monotonic 600_000 3 in
      let w = record w { reset_requests = bucket } in
      if allowed
      then forgot_allowed v w
      else (err (rate_limited "muitas solicitações; aguarde alguns minutos"), w)

  -- The row has its new attempt already.
  check_code : Visit → String → String → PasswordReset → Exec Panel Unit
  unfolding audited set_admin_password strip
  check_code v code new_password entry w =
      let used = put_reset (use_up v.utc entry) w.db in
      let valid = or_false (lib.verify (strip code) entry.code_hash) in
      if ltb 6 entry.attempts
      then (err invalid_code, record w { db = used })
      else if valid
      then (
        ok tt,
        audited v "auth.password_reset" settings.admin_username
            (record w { db = set_admin_password lib v.draw settings new_password used }),
      )
      else (
        err invalid_code,
        audited v "auth.reset_failed" settings.admin_username
            (record w { db = put_reset entry w.db }),
      )

  try_code : Visit → String → String → Option PasswordReset → Exec Panel Unit
  unfolding check_code
  try_code v code new_password none w = (err invalid_code, w)
  try_code v code new_password (some entry) w =
      check_code v code new_password (record entry { attempts = entry.attempts + 1 }) w

  -- `/reset`
  unfoldable pub reset : Visit → String → String → Exec Panel Unit
  unfolding throttle visitor try_code is_weak
  reset v code new_password w =
      let (allowed, bucket) = throttle w.reset_attempts (visitor v.req) v.monotonic 600_000 10 in
      let w = record w { reset_attempts = bucket } in
      if not allowed
      then (err (rate_limited "muitas tentativas; aguarde alguns minutos"), w)
      else if is_weak new_password
      then (err weak_password, w)
      else try_code v code new_password
          (newest (is_usable settings.admin_username v.utc) w.db.resets) w
