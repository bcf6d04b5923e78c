-- ===== src/Dokploy/Audit.antt =====
-- `run` of backend/scripts/dokploy-repair.py, behind the parsing of its arguments.
pub mod Reads
pub mod Ended
use clusteration.Base.{
  ℕ, zero, suc, ◌+◌, ◌-◌, ◌/◌, String, ◌<>◌, Bool, true, false, not, ◌&&◌, ◌||◌, List, [], ◌∷◌,
  ◌++◌, keep, drop, length, Option, none, some, ◌=ₛ◌, ◌==◌, ltb, leb, if◌then◌else◌, is_empty,
}
use clusteration.Base.Text.{show, contains, lines}
use clusteration.Base.Json.{Json, Fields, str, obj, arr, field, end, get, repr}
use clusteration.Base.Json.Dumps.{dumps}
use clusteration.Base.Exec.{
  Exc, runtime, out_of_fuel, Result, ok, err, Exec, pure, raise, gets, of_result, try_except, ◌>>=◌,
  ◌>>◌,
}
use clusteration.Dokploy.{
  Outside, Session, Args, Printed, json, line, ApiCall, get_call, post_call, api_json, print,
  print_json, public_build, pause, has_build,
}
use clusteration.Dokploy.Picked.{pick_application}
use clusteration.Dokploy.Logs.{tolerated, log_summary}

abbrev app_id_query : String → Fields
app_id_query app_id = field "applicationId" (str app_id) end

abbrev exit_if : Bool → ℕ → ℕ
exit_if done code = if done then 0 else code

module _ {N : Type 0} (t : Outside N) where
  -- A read that is printed.
  unfoldable pub print_read : String → ApiCall → Exec (Session N) Unit
  unfolding api_json print_json
  print_read label c = do j ← api_json t c; print_json t label j

  -- The end of a round.
  next_round : Exec (Session N) Bool → Bool → Bool → Exec (Session N) Bool
  unfolding pause
  next_round again is_live is_late =
      if is_live then pure true else if is_late then pure false else (pause t 5 >> again)

  -- The loop of `wait_for_expected_build`.
  unfoldable pub wait_from : ℕ → Args → ℕ → Exec (Session N) Bool
  unfolding public_build print_json has_build next_round
  wait_from zero args deadline = raise out_of_fuel
  wait_from (suc fuel) args deadline = do
    status ← public_build t args.public_url
    print_json t "public /version" (obj status)
    is_late ← gets (λ (s : Session N). leb deadline (t.now s.net))
    next_round (wait_from fuel args deadline) (has_build args.expected_build status) is_late

  -- Each round sleeps for five seconds.
  unfoldable pub wait_for_expected_build : Args → Exec (Session N) Bool
  unfolding wait_from
  wait_for_expected_build args = do
    start ← gets (λ (s : Session N). t.now s.net)
    wait_from (args.wait / 5 + 2) args (start + args.wait)

  post : String → Fields → Exec (Session N) Unit
  unfolding api_json
  post endpoint body = api_json t (post_call endpoint body) >> pure tt

  post_if : Bool → String → Fields → Exec (Session N) Unit
  unfolding post
  post_if b endpoint body = if b then post endpoint body else pure tt

  pause_if : Bool → Exec (Session N) Unit
  unfolding pause
  pause_if b = if b then pause t 5 else pure tt

  -- The requests that change the application, in their order.
  unfoldable pub repair_app : Args → String → String → Exec (Session N) Unit
  unfolding post post_if pause_if
  repair_app args app_id name = do
    post_if args.clean_queues "application.cleanQueues" (app_id_query app_id)
    post "application.reload" (field "applicationId" (str app_id) (field "appName" (str name) end))
    post_if args.restart "application.stop" (app_id_query app_id)
    pause_if args.restart
    post_if args.deploys "application.deploy" (app_id_query app_id)
    post_if args.redeploys "application.redeploy" (
        field "applicationId" (str app_id) (
          field "title" (str "Runtime repair") (
            field "description" (str ("Force current Clusteration build " <> args.expected_build))
              end)))
    post_if args.restart "application.start" (app_id_query app_id)

  unfoldable pub audit_app : Args → String → Exec (Session N) Unit
  unfolding print_read tolerated log_summary
  audit_app args app_id = do
    print_read "application.one" (get_call "application.one" (app_id_query app_id))
    tolerated t "deployment audit" (
        print_read "deployment.allByType" (
          get_call "deployment.allByType"
            (field "id" (str app_id) (field "type" (str "application") end))))
    tolerated t "traefik audit" (
        print_read "application.readTraefikConfig"
          (get_call "application.readTraefikConfig" (app_id_query app_id)))
    (if args.logs
        then tolerated t "application log read" (log_summary t app_id args.expected_build)
        else pure tt)

  repaired : Args → String → String → Exec (Session N) ℕ
  unfolding print repair_app wait_for_expected_build tolerated log_summary
  repaired args app_id name = do
    print t (line ("== repair applicationId=" <> app_id <> " appName=" <> name <> " =="))
    repair_app args app_id name
    done ← wait_for_expected_build args
    tolerated t "application log read" (log_summary t app_id args.expected_build)
    pure (exit_if done 4)

  -- What is left with a key, by the status at the beginning.
  with_key : Args → Fields → Exec (Session N) ℕ
  unfolding pick_application audit_app repaired has_build
  with_key args status = do
    app ← pick_application t args
    audit_app args app.0
    (if args.repair
        then repaired args app.0 app.1
        else pure (exit_if (has_build args.expected_build status) 3))

  without_key : Args → Fields → Exec (Session N) ℕ
  unfolding print has_build
  without_key args status = if has_build args.expected_build status then pure 0 else (do
    print t (line "DOKPLOY_API_KEY is required to inspect/reload the active Dokploy application.")
    print t (
        line
          "Create it in Dokploy profile API/CLI settings, then export DOKPLOY_API_KEY and rerun.")
    pure 2)

  -- `run`: the exit code
  unfoldable pub run : Args → Exec (Session N) ℕ
  unfolding public_build print_json with_key without_key
  run args = do
    status ← public_build t args.public_url
    print_json t "public /version before" (obj status)
    if args.api_key =ₛ "" then without_key args status else with_key args status
