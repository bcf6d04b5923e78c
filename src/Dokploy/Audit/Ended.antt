-- ===== src/Dokploy/Audit/Ended.antt =====
-- The script ends: the wait for the expected build is not endless.
use clusteration.Base.{
  ℕ, zero, suc, ◌+◌, ◌*◌, ◌/◌, ◌≤◌, ◌≡◌, refl, String, Bool, true, false, leb, arith,
}
use clusteration.Base.Json.{Fields, obj}
use clusteration.Base.Exec.{Exec, gets, ◌>>=◌, ◌>>◌}
use clusteration.Base.Exec.Ends.{
  IsFine, IsFine-bind, Ends, Ends-gets, Ends-pure, Ends-bind, ends_rules,
}
use clusteration.Dokploy.{Outside, Session, Args, ApiCall, pause}
use clusteration.Dokploy.Rules.{
  IsClock, time, Ends-api_json, Ends-print, Ends-print_json, Ends-public_build, Ends-pause,
}
use clusteration.Dokploy.Picked.Calls.{pick_application-Ends}
use clusteration.Dokploy.Logs.Calls.{tolerated-Ends, log_summary-Ends}
use clusteration.Dokploy.Audit.{
  print_read, next_round, wait_from, wait_for_expected_build, post, post_if, pause_if, repair_app,
  audit_app, repaired, with_key, without_key, run,
}

module _ {N : Type 0} {t : Outside N} (clock : IsClock t) where
  -- A round ends if the next does whenever the deadline is still to come.
  next_round-IsFine :
      (again : Exec (Session N) Bool) (is_live is_late : Bool) (s : Session N)
      → (is_late ≡ false → IsFine (time t) s ((pause t 5 >> again) s))
      → IsFine (time t) s (next_round t again is_live is_late s)
  unfolding next_round
  next_round-IsFine again true is_late s later = (Ends-pure {clock = time t} true).at s
  next_round-IsFine again false true s later = (Ends-pure {clock = time t} false).at s
  next_round-IsFine again false false s later = later refl

  round-IsFine :
      (fuel : ℕ) (args : Args) (deadline : ℕ) (s : Session N)
      → ((s' : Session N)
          → time t s ≤ time t s'
          → leb deadline (time t s') ≡ false
          → IsFine (time t) s' ((pause t 5 >> wait_from t fuel args deadline) s'))
      → IsFine (time t) s (wait_from t (suc fuel) args deadline s)
  unfolding wait_from gets
  round-IsFine fuel args deadline s later =
      IsFine-bind (time t) _ _ s (Ends-public_build clock args.public_url) λ status p le.
        IsFine-bind (time t) _ _ _ (Ends-print_json clock _ (obj status)) λ u q le'.
          IsFine-bind (time t) _ _ _ (Ends-gets _) λ is_late r le''.
            next_round-IsFine _ _ is_late _ λ off. later _ (omega arith) (ground arith)

  wait_from-IsFine :
      (fuel : ℕ) (args : Args) (deadline : ℕ) (s : Session N)
      → deadline ≤ time t s + fuel * 5
      → IsFine (time t) s (wait_from t (suc fuel) args deadline s)
  unfolding pause
  wait_from-IsFine zero args deadline s enough =
      round-IsFine zero args deadline s λ s' le early. absurd (ground arith)
  wait_from-IsFine (suc fuel) args deadline s enough =
      round-IsFine (suc fuel) args deadline s λ s' le early.
        IsFine-bind (time t) _ _ s' (Ends-pause clock 5) λ u p slept.
          wait_from-IsFine fuel args deadline _ (omega (arith, clock.now-sleep 5 s'.net))

  wait_for_expected_build-Ends : (args : Args) → Ends (time t) (wait_for_expected_build t args)
  unfolding wait_for_expected_build gets ◌>>=◌
  wait_for_expected_build-Ends args = record {
    at = λ s.
        let more : args.wait / 5 + 2 ≡ suc (args.wait / 5 + 1) = omega arith in
        rw more (wait_from-IsFine (args.wait / 5 + 1) args (time t s + args.wait) s (omega arith));
  }

  print_read-Ends : (label : String) (c : ApiCall) → Ends (time t) (print_read t label c)
  unfolding print_read
  print_read-Ends label c = search (ends_rules, Ends-api_json clock, Ends-print_json clock)

  post-Ends : (endpoint : String) (body : Fields) → Ends (time t) (post t endpoint body)
  unfolding post
  post-Ends endpoint body = search (ends_rules, Ends-api_json clock)

  post_if-Ends :
      (b : Bool) (endpoint : String) (body : Fields) → Ends (time t) (post_if t b endpoint body)
  unfolding post_if
  post_if-Ends b endpoint body = search (ends_rules, post-Ends)

  pause_if-Ends : (b : Bool) → Ends (time t) (pause_if t b)
  unfolding pause_if
  pause_if-Ends b = search (ends_rules, Ends-pause clock)

  repair_app-Ends :
      (args : Args) (app_id name : String) → Ends (time t) (repair_app t args app_id name)
  unfolding repair_app
  repair_app-Ends args app_id name =
      search (ends_rules, post-Ends, post_if-Ends, pause_if-Ends) depth 10

  audit_app-Ends : (args : Args) (app_id : String) → Ends (time t) (audit_app t args app_id)
  unfolding audit_app
  audit_app-Ends args app_id =
      search (ends_rules, print_read-Ends, tolerated-Ends clock, log_summary-Ends clock) depth 9

  repaired-Ends : (args : Args) (app_id name : String) → Ends (time t) (repaired t args app_id name)
  unfolding repaired
  repaired-Ends args app_id name =
      search
        (
          ends_rules,
          Ends-print clock,
          repair_app-Ends,
          wait_for_expected_build-Ends,
          tolerated-Ends clock,
          log_summary-Ends clock,
        )
        depth 9

  without_key-Ends : (args : Args) (status : Fields) → Ends (time t) (without_key t args status)
  unfolding without_key
  without_key-Ends args status = search (ends_rules, Ends-print clock)

  with_key-Ends : (args : Args) (status : Fields) → Ends (time t) (with_key t args status)
  unfolding with_key
  with_key-Ends args status =
      search (ends_rules, pick_application-Ends clock, audit_app-Ends, repaired-Ends)

-- Under a monotonic clock the script ends, with an exit code or with an exception of the program: the
-- wait for the expected build, which has no bound of rounds, stops at its deadline.
pub run-ends :
    {N : Type 0} (t : Outside N)
    → IsClock t
    → (args : Args) (s : Session N) → IsFine (time t) s (run t args s)
unfolding run
run-ends t clock args s =
    (Ends-bind _ _ (Ends-public_build clock args.public_url) λ status.
        search (ends_rules, Ends-print_json clock, with_key-Ends clock, without_key-Ends clock)).at
      s
