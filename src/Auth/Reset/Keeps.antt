-- ===== src/Auth/Reset/Keeps.antt =====
-- What the handlers keep of the codes, given what a new code and a change of the found one keep.
use clusteration.Base.{
  ℕ, ◌+◌, ◌≤◌, ◌≡◌, refl, inl, inr, String, Bool, true, List, ltb, ◌==◌, adjust, Option, none, some,
  arith, Bool-cases,
}
use clusteration.Base.Text.{strip}
use clusteration.Entities.{PasswordReset}
use clusteration.Settings.{Settings}
use clusteration.Database.{Db}
use clusteration.Auth.{Panel, Libraries, Visit, visitor, audited}
use clusteration.Auth.Throttle.{throttle}
use clusteration.Auth.Login.{login, logout, change_password, is_weak}
use clusteration.Auth.Login.Outcome.{login-db, logout-db, change_password-db}
use clusteration.Auth.Credentials.{or_false}
use clusteration.Auth.Credentials.Stored.{set_admin_password-resets}
use clusteration.Auth.Reset.{
  is_open, is_usable, use_up, newest, put_reset, issue, forgot, forgot_allowed, reset, check_code,
  try_code,
}

module _ (lib : Libraries) (settings : Settings) where
  -- A condition on the next id and the rows that every change of the rows keeps.
  pub record RowsKept (P : ℕ → List PasswordReset → Type 0) : Type 0 where
    pub grows : (bound next : ℕ) (rs : List PasswordReset) → bound ≤ next → P bound rs → P next rs
    pub issues :
        (v : Visit) (db : Db)
        → P db.next_id db.resets
        → P (issue lib settings v db).next_id (issue lib settings v db).resets
    pub puts :
        (bound now : ℕ) (rs : List PasswordReset) (entry changed : PasswordReset)
        → P bound rs
        → newest (is_usable settings.admin_username now) rs ≡ some entry
        → changed.id ≡ entry.id
        → (is_open settings.admin_username changed ≡ true → changed.attempts ≤ 6)
        → P bound (adjust (λ (x : PasswordReset). x.id == changed.id) (λ _. changed) rs)

  -- A request of any browser, which has a session of its own, is served.
  pub data Step : Panel → Panel → Type 0 where
    logs_in :
        (w : Panel) (v : Visit) (username password : String)
        → Step w (login lib settings v username password w).1
    logs_out : (w : Panel) (v : Visit) → Step w (logout settings v w).1
    changes :
        (w : Panel) (v : Visit) (current new_password : String)
        → Step w (change_password lib settings v current new_password w).1
    forgets : (w : Panel) (v : Visit) → Step w (forgot lib settings v w).1
    resets :
        (w : Panel) (v : Visit) (code new_password : String)
        → Step w (reset lib settings v code new_password w).1
    browser :
        (w : Panel) (authenticated : Bool) → Step w (record w { authenticated = authenticated })

  pub data Reach (w : Panel) : Panel → Type 0 where
    here : Reach w w
    next : {u u' : Panel} → Reach w u → Step u u' → Reach w u'

module _ (lib : Libraries) (settings : Settings) (P : ℕ → List PasswordReset → Type 0)
    (k : RowsKept lib settings P) where
  abbrev Holds : Panel → Type 0
  Holds w = P w.db.next_id w.db.resets

  forgot_allowed-kept :
      (v : Visit) (w : Panel) → Holds w → Holds (forgot_allowed lib settings v w).1
  unfolding forgot_allowed audited
  forgot_allowed-kept v w h =
      let issued = k.issues v w.db h in
      let told =
        k.grows (issue lib settings v w.db).next_id ((issue lib settings v w.db).next_id + 1)
          (issue lib settings v w.db).resets (omega arith) issued in
      ground (arith, issued, told)

  pub forgot-kept : (v : Visit) (w : Panel) → Holds w → Holds (forgot lib settings v w).1
  unfolding forgot throttle
  forgot-kept v w h =
      elim (Bool-cases (throttle w.reset_requests (visitor v.req) v.monotonic 600_000 3).0) [
        | inl p ↦ rw (p, forgot) (forgot_allowed-kept v _ h)
        | inr p ↦ rw (p, forgot) h
      ]

  check_code-kept :
      (v : Visit) (code new_password : String) (entry : PasswordReset) (w : Panel)
      → newest (is_usable settings.admin_username v.utc) w.db.resets ≡ some entry
      → Holds w
      → Holds
          (check_code lib settings v code new_password
            (record entry { attempts = entry.attempts + 1 })
            w).1
  unfolding check_code audited
  check_code-kept v code new_password entry w e h =
      let tried = record entry { attempts = entry.attempts + 1 } in
      let used =
        k.puts w.db.next_id v.utc w.db.resets entry (use_up v.utc tried) h e refl
          (λ o. ground arith) in
      elim (Bool-cases (ltb 6 (entry.attempts + 1))) [
        | inl p ↦ rw p used
        | inr p ↦ elim (Bool-cases (or_false (lib.verify (strip code) entry.code_hash))) [
          | inl q ↦
              rw (p, q)
                (let (rows, id) =
                    set_admin_password-resets lib settings v.draw new_password
                      (put_reset (use_up v.utc tried) w.db) in
                  rw (rows, id) (k.grows w.db.next_id _ _ (omega arith) used))
          | inr q ↦
              rw (p, q)
                (k.grows w.db.next_id _ _ (omega arith)
                  (k.puts w.db.next_id v.utc w.db.resets entry tried h e refl (λ o. ground arith)))
        ]
      ]

  try_code-kept :
      (v : Visit) (code new_password : String) (found : Option PasswordReset) (w : Panel)
      → newest (is_usable settings.admin_username v.utc) w.db.resets ≡ found
      → Holds w
      → Holds (try_code lib settings v code new_password found w).1
  unfolding try_code
  try_code-kept v code new_password none w e h = h
  try_code-kept v code new_password (some entry) w e h =
      check_code-kept v code new_password entry w e h

  pub reset-kept :
      (v : Visit) (code new_password : String) (w : Panel)
      → Holds w
      → Holds (reset lib settings v code new_password w).1
  unfolding reset throttle try_code
  reset-kept v code new_password w h =
      elim (Bool-cases (throttle w.reset_attempts (visitor v.req) v.monotonic 600_000 10).0) [
        | inl p ↦ elim (Bool-cases (is_weak new_password)) [
          | inl q ↦ rw (p, reset, q) h
          | inr q ↦ rw (p, reset, q) (try_code-kept v code new_password _ _ refl h)
        ]
        | inr p ↦ rw (p, reset) h
      ]

  Step-kept : {w w' : Panel} → Step lib settings w w' → Holds w → Holds w'
  Step-kept (logs_in w v username password) h =
      let (rows, id) = login-db lib settings v username password w in rw rows (k.grows _ _ _ id h)
  Step-kept (logs_out w v) h =
      let (rows, id) = logout-db lib settings v w in rw rows (k.grows _ _ _ id h)
  Step-kept (changes w v current new_password) h =
      let (rows, id) = change_password-db lib settings v current new_password w in
      rw rows (k.grows _ _ _ id h)
  Step-kept (forgets w v) h = forgot-kept v w h
  Step-kept (resets w v code new_password) h = reset-kept v code new_password w h
  Step-kept (browser w b) h = h

  pub Reach-kept : (w w' : Panel) → Reach lib settings w w' → Holds w → Holds w'
  Reach-kept w w' here h = h
  Reach-kept w w' (next {u} r s) h = Step-kept s (Reach-kept w u r h)
