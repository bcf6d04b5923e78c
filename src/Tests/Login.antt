-- ===== src/Tests/Login.antt =====
-- Examples of the theorems on the login and the reset codes.
use clusteration.Base.{
  ℕ, ◌%◌, ◌≤◌, ◌≡◌, refl, ◌<>◌, true, false, [], ◌∷◌, ◌=ₛ◌, length, some, text_refl, ap, arith,
}
use clusteration.Base.Text.{strip}
use clusteration.Base.Exec.{ok}
use clusteration.Entities.{AdminCredential, PasswordReset}
use clusteration.Settings.{Settings, defaults}
use clusteration.Database.{empty_db}
use clusteration.Auth.{no_hits, Panel, Libraries, VerifiesOwnHashes, Visit}
use clusteration.Auth.Throttle.{recent, throttle}
use clusteration.Auth.Throttle.Window.{at_first, call, throttle-bounds}
use clusteration.Auth.Credentials.{or_false}
use clusteration.Auth.Login.{login, change_password, is_weak, login_window, login_max_fails}
use clusteration.Auth.Login.Outcome.{change_password-login}
use clusteration.Auth.Login.Guesses.{fresh, guess, Guesses-bounds}
use clusteration.Auth.Reset.{forgot, reset, is_usable, newest}
use clusteration.Auth.Reset.Rows.{IdIsClosed}
use clusteration.Auth.Reset.Keeps.{forgets, here, next}
use clusteration.Auth.Reset.Codes.{CodesHold}
use clusteration.Auth.Reset.Life.{Reach-Hold, reset-spends}
use clusteration.Auth.Reset.Owner.{forgot-reset-login}

abbrev plain : Libraries
plain = record {
  hash = λ salt password. password <> "#";
  verify = λ password hash. ok (hash =ₛ (password <> "#"));
  randbelow = λ draw bound. draw % bound;
  accepts_mail = λ mail. true;
}

plain-VerifiesOwnHashes : VerifiesOwnHashes plain
plain-VerifiesOwnHashes = record {
  verify-hash = λ salt password. ap ok (text_refl (password <> "#"));
}

abbrev mailing : Settings
mailing = record defaults { smtp_host = "smtp.example"; smtp_user = "owner@example" }

abbrev owner : AdminCredential
owner = record { username = "admin"; password_hash = "old-secret#" }

abbrev a_panel : Panel
a_panel = record {
  db = record empty_db { credentials = owner ∷ []; next_id = 1 };
  login_fails = no_hits;
  reset_requests = no_hits;
  reset_attempts = no_hits;
  outbox = [];
  authenticated = false;
}

abbrev at_time : ℕ → Visit
at_time s = record {
  req = record { forwarded_for = ""; client_host = some "192.0.2.7"; request_id = some "r1" };
  monotonic = s;
  utc = s;
  draw = 4711;
}

throttle-bounds_example : length (recent 600_000 30 (10 ∷ 20 ∷ [])) ≤ 3
unfolding throttle
throttle-bounds_example =
    throttle-bounds "a" 600_000 3 20 30 _ (10 ∷ 20 ∷ [])
      (call "a" 20 (call "a" 10 (at_first 0) (omega arith)) (omega arith)) (omega arith)

Guesses-bounds_example : length (recent login_window 9 (9 ∷ [])) ≤ login_max_fails
unfolding login
Guesses-bounds_example =
    Guesses-bounds plain mailing "192.0.2.7" 9 9
      (login plain mailing (at_time 9) "admin" "wrong" a_panel).1 (9 ∷ [])
      (guess (at_time 9) "admin" "wrong" false (fresh 0 a_panel refl) (omega arith) refl)
      (omega arith)

change_password-login_example :
    (login plain mailing
      (at_time 20)
      "admin"
      "new-secret"
      (change_password plain mailing
        (at_time 9)
        "old-secret"
        "new-secret"
        (record a_panel { authenticated = true })).1).1.authenticated
    ≡ true
unfolding change_password is_weak
change_password-login_example =
    change_password-login plain mailing (at_time 9) (at_time 20) "old-secret" "new-secret" "admin"
      (record a_panel { authenticated = true })
      (change_password plain mailing (at_time 9) "old-secret" "new-secret"
        (record a_panel { authenticated = true })).1
      plain-VerifiesOwnHashes refl refl (omega arith)

abbrev asked : Panel
unfolding forgot
asked = (forgot plain mailing (at_time 10) a_panel).1

a_panel-CodesHold : CodesHold "admin" 1 []
a_panel-CodesHold = record { below = tt; own_ids = tt; one_open = tt; tries = tt }

Reach-Hold_example : CodesHold "admin" asked.db.next_id asked.db.resets
unfolding forgot asked
Reach-Hold_example =
    Reach-Hold plain mailing a_panel asked (next here (forgets a_panel (at_time 10)))
      a_panel-CodesHold

forgot-reset-login_example :
    ((reset plain mailing (at_time 20) " 004711\n" "new-secret" asked).0 ≡ ok tt)
    × ((login plain mailing
          (at_time 30)
          "admin"
          "new-secret"
          (reset plain mailing (at_time 20) " 004711\n" "new-secret" asked).1).1.authenticated
        ≡ true)
unfolding forgot reset asked
forgot-reset-login_example =
    forgot-reset-login plain mailing (at_time 10) (at_time 20) (at_time 30) "o***@example"
      " 004711\n" "new-secret" "admin" a_panel asked plain-VerifiesOwnHashes refl refl (omega arith)
      refl refl refl (omega arith)

abbrev reset_panel : Panel
unfolding reset asked
reset_panel = (reset plain mailing (at_time 20) "004711" "new-secret" asked).1

asked-CodesHold : CodesHold "admin" asked.db.next_id asked.db.resets
unfolding forgot asked
asked-CodesHold =
    Reach-Hold plain mailing a_panel asked (next here (forgets a_panel (at_time 10)))
      a_panel-CodesHold

reset-spends_example :
    (entry : PasswordReset) × (newest (is_usable "admin" 20) asked.db.resets ≡ some entry)
    × (or_false (plain.verify (strip "004711") entry.code_hash) ≡ true)
    × (entry.attempts ≤ 5)
    × IdIsClosed "admin" entry.id reset_panel.db.resets
unfolding reset reset_panel
reset-spends_example =
    reset-spends plain mailing (at_time 20) "004711" "new-secret" asked reset_panel reset_panel
      asked-CodesHold refl here
