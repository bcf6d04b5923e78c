-- ===== src/Auth/Reset/Owner.antt =====
-- The owner of the mailbox gets in again.
use clusteration.Base.{
  ℕ, ◌+◌, ◌*◌, ◌<◌, ◌≡◌, refl, ap, inl, inr, String, true, false, not, List, [], ◌∷◌, ◌++◌, some,
  arith, Bool-cases, ◌||◌, ◌=ₛ◌, text_refl,
}
use clusteration.Base.Text.{strip}
use clusteration.Base.Exec.{ok}
use clusteration.Entities.{PasswordReset}
use clusteration.Settings.{Settings}
use clusteration.Auth.{Panel, Libraries, VerifiesOwnHashes, Visit, visitor, audited}
use clusteration.Auth.Throttle.{throttle}
use clusteration.Auth.Login.{login, is_weak, email_enabled}
use clusteration.Auth.Login.Outcome.{IsUnblocked, login_with_set}
use clusteration.Auth.Credentials.{norm_username}
use clusteration.Auth.Reset.{
  is_usable, newest, drawn_code, new_reset, issue, forgot, forgot_allowed, reset_mail,
  reset_mailbox, reset, check_code, try_code,
}
use clusteration.Auth.Reset.Rows.{AreClosed, use_up-AreClosed}
use clusteration.Auth.Reset.Accepted.{reset-Accepted}

newest_of_closed :
    (uname : String) (now : ℕ) (rs : List PasswordReset) (new : PasswordReset)
    → AreClosed uname rs
    → is_usable uname now new ≡ true
    → newest (is_usable uname now) (rs ++ new ∷ []) ≡ some new
newest_of_closed uname now [] new c u = rw u refl
newest_of_closed uname now (r ∷ rs) new (c, cs) u =
    ground (arith, newest_of_closed uname now rs new cs u)

module _ (lib : Libraries) (settings : Settings) where
  -- What `/forgot` leaves when it succeeds.
  forgot_issues :
      (v : Visit) (w w' : Panel) (shown : String)
      → forgot lib settings v w ≡ (ok shown, w')
      → (w'.db.resets ≡ (issue lib settings v w.db).resets)
        × (w'.outbox ≡ w.outbox ++ reset_mail lib settings v ∷ [])
        × (w'.reset_attempts ≡ w.reset_attempts)
  unfolding forgot throttle forgot_allowed audited
  forgot_issues v w w' shown h =
      elim (Bool-cases (throttle w.reset_requests (visitor v.req) v.monotonic 600_000 3).0) [
        | inl p ↦ elim (Bool-cases (not (email_enabled settings) || reset_mailbox settings =ₛ "")) [
          | inl q ↦ absurd (ground arith)
          | inr q ↦ elim (Bool-cases (lib.accepts_mail (reset_mail lib settings v))) [
            | inl r ↦ ground arith
            | inr r ↦ absurd (ground arith)
          ]
        ]
        | inr p ↦ absurd (ground arith)
      ]

  reset-accepts :
      (v : Visit) (code new_password : String) (entry : PasswordReset) (w : Panel)
      → (throttle w.reset_attempts (visitor v.req) v.monotonic 600_000 10).0 ≡ true
      → is_weak new_password ≡ false
      → newest (is_usable settings.admin_username v.utc) w.db.resets ≡ some entry
      → lib.verify (strip code) entry.code_hash ≡ ok true
      → entry.attempts ≡ 0
      → (reset lib settings v code new_password w).0 ≡ ok tt
  unfolding reset try_code check_code
  reset-accepts v code new_password entry w allowed strong found verified fresh =
      rw (allowed, reset, strong, found, try_code, check_code, fresh, verified) refl

  new_reset-is_usable :
      (v : Visit) (id now : ℕ)
      → now < v.utc + settings.reset_code_ttl_minutes * 60
      → is_usable settings.admin_username now (new_reset lib settings v id) ≡ true
  unfolding new_reset
  new_reset-is_usable v id now h = rw (text_refl settings.admin_username) (ground arith)

  -- The row of the code that `/forgot` has mailed is the one that a reset finds.
  forgot-found :
      (v : Visit) (shown : String) (w w' : Panel) (now : ℕ)
      → forgot lib settings v w ≡ (ok shown, w')
      → now < v.utc + settings.reset_code_ttl_minutes * 60
      → newest (is_usable settings.admin_username now) w'.db.resets
        ≡ some (new_reset lib settings v w.db.next_id)
  unfolding issue
  forgot-found v shown w w' now asked soon = rw (forgot_issues v w w' shown asked).0 (
      newest_of_closed settings.admin_username now _ (new_reset lib settings v w.db.next_id)
        (use_up-AreClosed settings.admin_username v.utc w.db.resets)
        (new_reset-is_usable v w.db.next_id now soon))

  mailed_code-verifies :
      (v : Visit) (id : ℕ) (typed : String)
      → VerifiesOwnHashes lib
      → strip typed ≡ drawn_code lib settings v
      → (lib.verify (strip typed) (new_reset lib settings v id).code_hash ≡ ok true)
        × ((new_reset lib settings v id).attempts ≡ 0)
  unfolding new_reset
  mailed_code-verifies v id typed own same_code = (rw same_code (own.verify-hash v.draw _), refl)

  -- The code that `/forgot` has mailed, typed with whatever white space around it before it runs out,
  -- by a peer that is not throttled and with a password that is not weak, resets the password: with it
  -- the administrator logs in from a peer that is not blocked.
  pub forgot-reset-login :
      (v r later : Visit) (shown typed new_password username : String) (w w' : Panel)
      → VerifiesOwnHashes lib
      → forgot lib settings v w ≡ (ok shown, w')
      → strip typed ≡ drawn_code lib settings v
      → r.utc < v.utc + settings.reset_code_ttl_minutes * 60
      → (throttle w'.reset_attempts (visitor r.req) r.monotonic 600_000 10).0 ≡ true
      → is_weak new_password ≡ false
      → norm_username username ≡ norm_username settings.admin_username
      → IsUnblocked later (reset lib settings r typed new_password w').1
      → ((reset lib settings r typed new_password w').0 ≡ ok tt)
        × ((login lib settings later username new_password
              (reset lib settings r typed new_password w').1).1.authenticated
            ≡ true)
  forgot-reset-login v r later shown typed new_password username w w' own asked same_code soon
        allowed strong same free =
      let (verified, fresh) = mailed_code-verifies v w.db.next_id typed own same_code in
      let done =
        reset-accepts r typed new_password (new_reset lib settings v w.db.next_id) w' allowed strong
          (forgot-found v shown w w' r.utc asked soon) verified fresh in
      let behind = (reset lib settings r typed new_password w').1 in
      let (entry, found, accepted) =
        reset-Accepted lib settings r typed new_password w' behind (ap (λ x. (x, behind)) done) in
      (
        done,
        login_with_set lib settings later r.draw username new_password _ behind own same
            accepted.credentials free,
      )
