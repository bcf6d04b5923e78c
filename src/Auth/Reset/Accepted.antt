-- ===== src/Auth/Reset/Accepted.antt =====
-- What a reset has found and done when it succeeds.
use clusteration.Base.{
  ◌+◌, ◌≤◌, ◌≡◌, refl, inl, inr, String, true, ◌==◌, ltb, adjust, Option, none, some, arith,
  Bool-cases,
}
use clusteration.Base.Text.{strip}
use clusteration.Base.Exec.{ok}
use clusteration.Entities.{PasswordReset}
use clusteration.Database.{Db}
use clusteration.Settings.{Settings}
use clusteration.Auth.{Panel, Libraries, Visit, visitor, audited}
use clusteration.Auth.Throttle.{throttle}
use clusteration.Auth.Login.{is_weak}
use clusteration.Auth.Credentials.{or_false, set_admin_password}
use clusteration.Auth.Credentials.Stored.{set_admin_password-resets}
use clusteration.Auth.Reset.{is_usable, use_up, newest, put_reset, reset, check_code, try_code}

abbrev pub tried : PasswordReset → PasswordReset
tried entry = record entry { attempts = entry.attempts + 1 }

module _ (lib : Libraries) (settings : Settings) where
  -- The state behind the reset, from the one before it and the code's row.
  pub record Accepted (v : Visit) (code new_password : String) (entry : PasswordReset) (db : Db)
      (w' : Panel) : Type 0 where
    pub verified : or_false (lib.verify (strip code) entry.code_hash) ≡ true
    pub within : entry.attempts ≤ 5
    pub credentials :
        w'.db.credentials
        ≡ (set_admin_password lib v.draw settings new_password
            (put_reset (use_up v.utc (tried entry)) db)).credentials
    pub rows :
        w'.db.resets
        ≡ adjust
            (λ (x : PasswordReset). x.id == entry.id)
            (λ _. use_up v.utc (tried entry))
            db.resets
    pub grows : db.next_id ≤ w'.db.next_id

  check_code-Accepted :
      (v : Visit) (code new_password : String) (entry : PasswordReset) (w w' : Panel)
      → check_code lib settings v code new_password (tried entry) w ≡ (ok tt, w')
      → Accepted v code new_password entry w.db w'
  unfolding check_code audited
  check_code-Accepted v code new_password entry w w' h =
      let (rows, id) =
        set_admin_password-resets lib settings v.draw new_password
          (put_reset (use_up v.utc (tried entry)) w.db) in
      elim (Bool-cases (ltb 6 (entry.attempts + 1))) [
        | inl p ↦ absurd (ground arith)
        | inr p ↦ elim (Bool-cases (or_false (lib.verify (strip code) entry.code_hash))) [
          | inl q ↦ ground (arith, rows, id)
          | inr q ↦ absurd (ground arith)
        ]
      ]

  try_code-Accepted :
      (v : Visit) (code new_password : String) (found : Option PasswordReset) (w w' : Panel)
      → try_code lib settings v code new_password found w ≡ (ok tt, w')
      → (entry : PasswordReset) × (found ≡ some entry) × Accepted v code new_password entry w.db w'
  unfolding try_code
  try_code-Accepted v code new_password none w w' h = absurd (ground arith)
  try_code-Accepted v code new_password (some entry) w w' h =
      (entry, refl, check_code-Accepted v code new_password entry w w' h)

  pub reset-Accepted :
      (v : Visit) (code new_password : String) (w w' : Panel)
      → reset lib settings v code new_password w ≡ (ok tt, w')
      → (entry : PasswordReset) × (newest (is_usable settings.admin_username v.utc) w.db.resets
          ≡ some entry)
        × Accepted v code new_password entry w.db w'
  unfolding reset throttle
  reset-Accepted v code new_password w w' h =
      elim (Bool-cases (throttle w.reset_attempts (visitor v.req) v.monotonic 600_000 10).0) [
        | inl p ↦ elim (Bool-cases (is_weak new_password)) [
          | inl q ↦ absurd (ground arith)
          | inr q ↦
              try_code-Accepted v code new_password _
                (record w {
                  reset_attempts =
                      (throttle w.reset_attempts (visitor v.req) v.monotonic 600_000 10).1;
                })
                w' (ground arith)
        ]
        | inr p ↦ absurd (ground arith)
      ]
