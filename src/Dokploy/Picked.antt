-- ===== src/Dokploy/Picked.antt =====
-- `pick_application` of backend/scripts/dokploy-repair.py.
pub mod Calls
use clusteration.Base.{
  ℕ, zero, suc, ◌+◌, ◌-◌, ◌/◌, String, ◌<>◌, Bool, true, false, not, ◌&&◌, ◌||◌, List, [], ◌∷◌,
  ◌++◌, keep, drop, length, Option, none, some, ◌=ₛ◌, ◌==◌, ltb, leb, if◌then◌else◌, is_empty,
}
use clusteration.Base.Text.{show, contains, lines}
use clusteration.Base.Json.{Json, Fields, str, obj, arr, field, end, get, repr}
use clusteration.Base.Json.Dumps.{dumps}
use clusteration.Base.Exec.{
  Exc, runtime, out_of_fuel, Result, ok, err, Exec, pure, raise, gets, of_result, try_except, ◌>>=◌,
  ◌>>◌,
}
use clusteration.Dokploy.{
  Outside, Session, Args, Printed, json, line, ApiCall, get_call, post_call, api_json, print,
  print_all, print_json, public_build, pause, has_build,
}
use clusteration.Dokploy.Redact.{redact}
use clusteration.Dokploy.Candidates.{Candidate, collect_candidates}

-- `a or b`
abbrev text_or : String → String → String
text_or a b = if a =ₛ "" then b else a

candidate_line : Candidate → Printed
unfolding show
candidate_line c = line (
    "score="
    <> show c.score
    <> " id="
    <> text_or c.app_id "-"
    <> " name="
    <> text_or c.name "-"
    <> " appName="
    <> text_or c.app_name "-"
    <> " domain="
    <> (if c.matched_domain then "yes" else "no"))

-- Whether the second candidate is as good as the first.
abbrev is_tied : Candidate → List Candidate → Bool
is_tied top [] = false
is_tied top (c ∷ cs) = top.score == c.score

-- What `pick_application` makes of the candidates: the application's id and name.
unfoldable pub chosen : String → Candidate → List Candidate → Result (String × String)
chosen app_name top others =
    if is_tied top others
    then err (runtime "multiple Dokploy applications matched; rerun with --app-id")
    else if top.app_id =ₛ ""
    then err (runtime "matched application has no applicationId; rerun with --app-id")
    else ok (top.app_id, text_or top.app_name (text_or top.name app_name))

module _ {N : Type 0} (t : Outside N) where
  candidate_lines : List Candidate → List Printed
  unfolding candidate_line
  candidate_lines [] = []
  candidate_lines (c ∷ cs) = candidate_line c ∷ candidate_lines cs

  pick_from : String → String → Json → List Candidate → Exec (Session N) (String × String)
  unfolding print_json print_all candidate_lines chosen
  pick_from app_name domain projects [] = do
    print_json t "project.all" projects
    raise (
        runtime (
          "no Dokploy application matched app="
          <> repr (str app_name)
          <> " domain="
          <> repr (str domain)))
  pick_from app_name domain projects (top ∷ others) = do
    print t (line "== Dokploy candidates ==")
    print_all t (candidate_lines (top ∷ others))
    of_result (chosen app_name top others)

  unfoldable pub pick_application : Args → Exec (Session N) (String × String)
  unfolding api_json pick_from collect_candidates
  pick_application args = if not (args.app_id =ₛ "") then pure (args.app_id, args.app_name) else (do
    projects ← api_json t (get_call "project.all" end)
    pick_from args.app_name args.domain projects
        (collect_candidates projects args.app_name args.domain))
