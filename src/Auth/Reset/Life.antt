-- ===== src/Auth/Reset/Life.antt =====
-- The life of a code through whatever calls come.
use clusteration.Base.{
  ℕ, ◌≤◌, ◌<◌, ◌≡◌, String, true, false, List, [], ◌∷◌, All-add, ◌==◌, adjust, some, arith,
}
use clusteration.Base.Text.{strip}
use clusteration.Base.Exec.{ok}
use clusteration.Entities.{PasswordReset}
use clusteration.Database.{Db}
use clusteration.Settings.{Settings}
use clusteration.Auth.{Panel, Libraries, Visit}
use clusteration.Auth.Credentials.{or_false}
use clusteration.Auth.Reset.{is_open, is_usable, use_up, newest, new_reset, issue, reset}
use clusteration.Auth.Reset.Rows.{IdIsClosed, newest-All, All-imp, All-adjust}
use clusteration.Auth.Reset.Keeps.{RowsKept, Reach, Reach-kept}
use clusteration.Auth.Reset.Codes.{CodesHold, CodesHold-RowsKept}
use clusteration.Auth.Reset.Accepted.{tried, reset-Accepted}

put_other : (a b id : ℕ) → b ≡ a → (b == id) ≡ true → (a == id) ≡ false → ⊥
put_other a b id same hit miss = ground arith

module _ (lib : Libraries) (settings : Settings) where
  -- Through whatever requests, at most one code is open at a time, no open code has had more than six
  -- attempts, and the ids stay distinct.
  pub Reach-Hold :
      (w w' : Panel)
      → Reach lib settings w w'
      → CodesHold settings.admin_username w.db.next_id w.db.resets
      → CodesHold settings.admin_username w'.db.next_id w'.db.resets
  Reach-Hold w w' r h =
      Reach-kept lib settings (CodesHold settings.admin_username) (CodesHold-RowsKept lib settings)
        w w' r h

  -- A code that is used up, and has an id that has been given.
  abbrev Spent : ℕ → ℕ → List PasswordReset → Type 0
  Spent id next_id rs = IdIsClosed settings.admin_username id rs × (id < next_id)

  -- A code that is used up is not the one that a reset finds.
  found_other :
      (id now : ℕ) (rs : List PasswordReset) (entry : PasswordReset)
      → IdIsClosed settings.admin_username id rs
      → newest (is_usable settings.admin_username now) rs ≡ some entry
      → (entry.id == id) ≡ false
  found_other id now rs entry s e =
      newest-All (λ (r : PasswordReset). (r.id == id) ≡ false)
        (is_usable settings.admin_username now) rs entry
        (All-imp rs s (λ r closed usable. ground arith)) e

  issue-Spent :
      (id : ℕ) (v : Visit) (db : Db)
      → Spent id db.next_id db.resets
      → Spent id (issue lib settings v db).next_id (issue lib settings v db).resets
  unfolding issue new_reset
  issue-Spent id v db (s, lt) = (
    All-add _ _ (new_reset lib settings v db.next_id)
        (All-adjust (is_open settings.admin_username) (use_up v.utc) db.resets s
          (λ x p q same. ground arith))
        (λ same. ground arith),
    omega arith,
  )

  Spent-RowsKept : (id : ℕ) → RowsKept lib settings (Spent id)
  Spent-RowsKept id = record {
    grows = λ bound next rs h s. (s.0, omega arith);
    issues = issue-Spent id;
    puts = λ bound now rs entry changed s e same few. (
      All-adjust (λ (x : PasswordReset). x.id == changed.id) (λ _. changed) rs s.0
          (λ x p q hit.
            absurd (put_other entry.id changed.id id same hit (found_other id now rs entry s.0 e))),
      s.1,
    );
  }

  put_closes :
      (changed : PasswordReset) (rs : List PasswordReset)
      → is_open settings.admin_username changed ≡ false
      → IdIsClosed settings.admin_username changed.id
          (adjust (λ (x : PasswordReset). x.id == changed.id) (λ _. changed) rs)
  put_closes changed [] c = tt
  put_closes changed (r ∷ rs) c = (λ same. ground arith, put_closes changed rs c)

  -- A code that has reset the password was open, with at most five attempts before, and its hash was that
  -- of what was typed; through whatever requests that come later, it is never open again.
  pub reset-spends :
      (v : Visit) (code new_password : String) (w w' w'' : Panel)
      → CodesHold settings.admin_username w.db.next_id w.db.resets
      → reset lib settings v code new_password w ≡ (ok tt, w')
      → Reach lib settings w' w''
      → (entry : PasswordReset) × (newest (is_usable settings.admin_username v.utc) w.db.resets
          ≡ some entry)
        × (or_false (lib.verify (strip code) entry.code_hash) ≡ true)
        × (entry.attempts ≤ 5)
        × IdIsClosed settings.admin_username entry.id w''.db.resets
  reset-spends v code new_password w w' w'' h done r =
      let (entry, found, accepted) = reset-Accepted lib settings v code new_password w w' done in
      let lt =
        newest-All (λ (r : PasswordReset). r.id < w.db.next_id)
          (is_usable settings.admin_username v.utc) w.db.resets entry
          (All-imp w.db.resets h.below (λ r p usable. p)) found in
      let spent : Spent entry.id w'.db.next_id w'.db.resets = (
        rw accepted.rows (put_closes (use_up v.utc (tried entry)) w.db.resets (ground arith)),
        omega (arith, accepted.grows),
      ) in
      (
        entry,
        found,
        accepted.verified,
        accepted.within,
        (Reach-kept lib settings (Spent entry.id) (Spent-RowsKept entry.id) w' w'' r spent).0,
      )
