-- ===== src/Auth/Login/Guesses.antt =====
-- How often the password can be guessed.
use clusteration.Base.{
  ℕ, ◌≤◌, ◌≡◌, refl, inl, inr, String, Bool, true, false, ◌=ₛ◌, if◌then◌else◌, List, [], length,
  leb, arith, Bool-cases,
}
use mathlib.Core.Path.{fun_ext}
use clusteration.Base.Exec.{app, Result, ok, err}
use clusteration.Settings.{Settings}
use clusteration.Auth.{Bucket, no_hits, set_hits, Panel, Libraries, Visit, visitor, audited}
use clusteration.Auth.Throttle.{recent, throttle}
use clusteration.Auth.Throttle.Window.{noted, Inv, fresh-Inv, cleared-Inv, throttle-Inv}
use clusteration.Auth.Credentials.{verify_admin}
use clusteration.Auth.Login.{login_window, login_max_fails, login, admit}

set_hits-set_hits :
    (ip : String) (hits last : List ℕ) (bucket : Bucket)
    → set_hits ip last (set_hits ip hits bucket) ≡ set_hits ip last bucket
set_hits-set_hits ip hits last bucket = fun_ext λ other. ground arith

-- The answer of a login whose credentials were looked at and were wrong.
abbrev pub is_wrong : Result Bool → Bool
is_wrong (err (app code _ _)) = code =ₛ "INVALID_CREDENTIALS"
is_wrong _ = false

-- The times at which `ip` was told that its credentials are wrong, since its last login: with the answer to
-- a login of `other`.
abbrev pub tallied : String → String → Result Bool → ℕ → List ℕ → List ℕ
tallied ip other (ok _) now wrong = if other =ₛ ip then [] else wrong
tallied ip other answer now wrong = noted ip other (is_wrong answer) now wrong

module _ (lib : Libraries) (settings : Settings) where
  -- Logins of whatever peers with whatever credentials, of which the check does not raise, and other calls
  -- that leave the failures as they are; the times of the wrong ones of `ip`, by the answers.
  pub data Guesses (ip : String) : ℕ → Panel → List ℕ → Type 0 where
    fresh : (now : ℕ) (w : Panel) → w.login_fails ≡ no_hits → Guesses ip now w []
    guess :
        {now : ℕ} {w : Panel} {wrong : List ℕ} (v : Visit) (username password : String)
        (verdict : Bool)
        → Guesses ip now w wrong
        → now ≤ v.monotonic
        → verify_admin lib w.db username password settings ≡ ok verdict
        → Guesses ip v.monotonic (login lib settings v username password w).1 (
            tallied ip
              (visitor v.req)
              (login lib settings v username password w).0
              v.monotonic
              wrong)
    elsewhere :
        {now : ℕ} {w : Panel} {wrong : List ℕ} (w' : Panel)
        → Guesses ip now w wrong
        → w'.login_fails ≡ w.login_fails
        → Guesses ip now w' wrong

  abbrev IsKept : String → ℕ → Panel → List ℕ → Type 0
  IsKept ip now w wrong = Inv ip login_window login_max_fails now w.login_fails wrong

  module _ (ip : String) (now : ℕ) (w : Panel) (wrong : List ℕ) (v : Visit)
      (username password : String) where
    is_full : Bool
    is_full =
        leb login_max_fails
          (length (recent login_window v.monotonic (w.login_fails (visitor v.req))))

    -- A login that does not go through does what the throttle does, and its answer is that of the throttle.
    IsThrottled : Type 0
    IsThrottled =
        ((login lib settings v username password w).1.login_fails
          ≡ (throttle w.login_fails (visitor v.req) v.monotonic login_window login_max_fails).1)
        × (tallied ip (visitor v.req) (login lib settings v username password w).0 v.monotonic wrong
            ≡ noted ip (visitor v.req)
                (throttle w.login_fails (visitor v.req) v.monotonic login_window login_max_fails).0
                v.monotonic wrong)

    IsNext : Type 0
    IsNext =
        IsKept ip v.monotonic (login lib settings v username password w).1 (
          tallied ip (visitor v.req) (login lib settings v username password w).0 v.monotonic wrong)

    blocked-IsThrottled : is_full ≡ true → IsThrottled
    unfolding login admit audited throttle is_full IsThrottled
    blocked-IsThrottled full = rw full (refl, refl)

    failed-IsThrottled :
        is_full ≡ false → verify_admin lib w.db username password settings ≡ ok false → IsThrottled
    unfolding login admit audited throttle is_full IsThrottled
    failed-IsThrottled room e =
        rw (room, e, login) (set_hits-set_hits (visitor v.req) _ _ w.login_fails, refl)

    passed :
        is_full ≡ false
        → verify_admin lib w.db username password settings ≡ ok true
        → ((login lib settings v username password w).1.login_fails
            ≡ set_hits (visitor v.req) [] w.login_fails)
          × ((login lib settings v username password w).0 ≡ ok true)
    unfolding login admit audited is_full
    passed room e = rw (room, e, login) (set_hits-set_hits (visitor v.req) _ _ w.login_fails, refl)

    throttled-IsNext : now ≤ v.monotonic → IsKept ip now w wrong → IsThrottled → IsNext
    unfolding IsThrottled IsNext
    throttled-IsNext h kept (p, q) =
        rw (p, q)
          (throttle-Inv ip login_window login_max_fails now v.monotonic w.login_fails wrong
            (visitor v.req) h kept)

    passed-IsNext :
        now ≤ v.monotonic
        → IsKept ip now w wrong
        → is_full ≡ false
        → verify_admin lib w.db username password settings ≡ ok true
        → IsNext
    unfolding IsNext
    passed-IsNext h kept room e =
        let (p, q) = passed room e in
        rw (p, q)
          (cleared-Inv ip login_window login_max_fails now v.monotonic w.login_fails wrong
            (visitor v.req) h kept)

    by_verdict :
        (verdict : Bool)
        → verify_admin lib w.db username password settings ≡ ok verdict
        → now ≤ v.monotonic
        → IsKept ip now w wrong
        → is_full ≡ false
        → IsNext
    by_verdict false e h kept room = throttled-IsNext h kept (failed-IsThrottled room e)
    by_verdict true e h kept room = passed-IsNext h kept room e

    guess-IsNext :
        (verdict : Bool)
        → verify_admin lib w.db username password settings ≡ ok verdict
        → now ≤ v.monotonic
        → IsKept ip now w wrong
        → IsNext
    guess-IsNext verdict e h kept = elim (Bool-cases is_full) [
      | inl full ↦ throttled-IsNext h kept (blocked-IsThrottled full)
      | inr room ↦ by_verdict verdict e h kept room
    ]

  Guesses-IsKept :
      (ip : String) {now : ℕ} {w : Panel} {wrong : List ℕ}
      → Guesses ip now w wrong
      → IsKept ip now w wrong
  unfolding IsNext
  Guesses-IsKept ip (fresh now w e) = rw e (fresh-Inv ip login_window login_max_fails now)
  Guesses-IsKept ip (elsewhere w' g e) = rw e (Guesses-IsKept ip g)
  Guesses-IsKept ip (guess {now} {w} {wrong} v username password verdict g h e) =
      guess-IsNext ip now w wrong v username password verdict e h (Guesses-IsKept ip g)

  -- Whoever tries what: of the logins of a peer since its last login, where the check of the credentials
  -- does not raise, at most eight within five minutes are answered that the credentials are wrong.
  pub Guesses-bounds :
      (ip : String) (now later : ℕ) (w : Panel) (wrong : List ℕ)
      → Guesses ip now w wrong
      → now ≤ later
      → length (recent login_window later wrong) ≤ login_max_fails
  Guesses-bounds ip now later w wrong g h = (Guesses-IsKept ip g).bounded later h
