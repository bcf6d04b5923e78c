-- ===== src/Auth/Reset/Codes.antt =====
-- Every change keeps the rows of the codes in order.
use clusteration.Base.{
  ℕ, ◌≤◌, ◌<◌, ◌≡◌, sym, ◌∙◌, String, true, true≢false, List, ◌==◌, adjust, some, arith, All-add,
}
use clusteration.Entities.{PasswordReset}
use clusteration.Settings.{Settings}
use clusteration.Database.{Db}
use clusteration.Auth.{Libraries, Visit}
use clusteration.Auth.Reset.{is_open, is_usable, use_up, newest, new_reset, issue}
use clusteration.Auth.Reset.Keeps.{RowsKept}
use clusteration.Auth.Reset.Rows.{
  All-adjust, All-imp, All-imp2, AreBelow, HaveOwnIds, HaveOneOpen, AreTriedSixTimes, IdIsOpen,
  HaveOwnIds-pairs, newest-All, HaveOneOpen-put, HaveOwnIds-put, use_up-AreClosed,
  use_up-HaveOwnIds, HaveOneOpen-add, HaveOwnIds-add,
}

-- The ids are distinct and below the next one, one code is open at most, and an open code has had at most
-- six attempts.
pub record CodesHold (uname : String) (next_id : ℕ) (rs : List PasswordReset) : Type 0 where
  pub below : AreBelow next_id rs
  pub own_ids : HaveOwnIds rs
  pub one_open : HaveOneOpen uname rs
  pub tries : AreTriedSixTimes uname rs

module _ (lib : Libraries) (settings : Settings) where
  CodesHold-grows :
      (bound next : ℕ) (rs : List PasswordReset)
      → bound ≤ next
      → CodesHold settings.admin_username bound rs
      → CodesHold settings.admin_username next rs
  CodesHold-grows bound next rs h v = record {
    below = All-imp rs v.below (λ r p. omega arith);
    own_ids = v.own_ids;
    one_open = v.one_open;
    tries = v.tries;
  }

  -- The row that the handler has found.
  usable_entry :
      (bound now : ℕ) (rs : List PasswordReset) (entry : PasswordReset)
      → CodesHold settings.admin_username bound rs
      → newest (is_usable settings.admin_username now) rs ≡ some entry
      → IdIsOpen settings.admin_username entry.id rs × (entry.id < bound)
  usable_entry bound now rs entry v e =
      newest-All (λ (r : PasswordReset). IdIsOpen settings.admin_username r.id rs × (r.id < bound))
        (is_usable settings.admin_username now) rs entry
        (All-imp2 rs (HaveOwnIds-pairs rs v.own_ids) v.below
          (λ r pairs lt usable. (All-imp rs pairs (λ x k same. rw (k same) (ground arith)), lt)))
        e

  put-CodesHold :
      (bound now : ℕ) (rs : List PasswordReset) (entry changed : PasswordReset)
      → CodesHold settings.admin_username bound rs
      → newest (is_usable settings.admin_username now) rs ≡ some entry
      → changed.id ≡ entry.id
      → (is_open settings.admin_username changed ≡ true → changed.attempts ≤ 6)
      → CodesHold settings.admin_username bound
          (adjust (λ (x : PasswordReset). x.id == changed.id) (λ _. changed) rs)
  put-CodesHold bound now rs entry changed v e same few =
      let (opens, lt) = usable_entry bound now rs entry v e in
      record {
        below =
            All-adjust (λ (x : PasswordReset). x.id == changed.id) (λ _. changed) rs v.below
              (λ x p q. omega arith);
        own_ids = HaveOwnIds-put settings.admin_username changed rs v.own_ids;
        one_open = HaveOneOpen-put settings.admin_username changed rs (rw same opens) v.one_open;
        tries =
            All-adjust (λ (x : PasswordReset). x.id == changed.id) (λ _. changed) rs v.tries
              (λ x p q. few);
      }

  issue-CodesHold :
      (v : Visit) (db : Db)
      → CodesHold settings.admin_username db.next_id db.resets
      → CodesHold settings.admin_username
          (issue lib settings v db).next_id
          (issue lib settings v db).resets
  unfolding issue new_reset
  issue-CodesHold v db h =
      let closed = use_up-AreClosed settings.admin_username v.utc db.resets in
      let rows = adjust (is_open settings.admin_username) (use_up v.utc) db.resets in
      let below =
        All-adjust (is_open settings.admin_username) (use_up v.utc) db.resets h.below
          (λ x p q. q) in
      record {
        below =
            All-add _ rows (new_reset lib settings v db.next_id)
              (All-imp rows below (λ x p. omega arith)) (omega arith);
        own_ids =
            HaveOwnIds-add settings.admin_username v.utc rows (new_reset lib settings v db.next_id)
              below (use_up-HaveOwnIds settings.admin_username v.utc db.resets h.own_ids);
        one_open =
            HaveOneOpen-add settings.admin_username v.utc rows (new_reset lib settings v db.next_id)
              closed;
        tries =
            All-add _ rows (new_reset lib settings v db.next_id)
              (All-imp rows closed (λ x c o. absurd (true≢false (sym o ∙ c)))) (λ o. omega arith);
      }

  pub CodesHold-RowsKept : RowsKept lib settings (CodesHold settings.admin_username)
  CodesHold-RowsKept = record {
    grows = CodesHold-grows;
    issues = issue-CodesHold;
    puts = put-CodesHold;
  }
