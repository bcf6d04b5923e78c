-- ===== src/Dokploy/Logs.antt =====
-- `read_application_logs` and `print_runtime_log_summary` of backend/scripts/dokploy-repair.py, and the
-- warning in place of an error.
pub mod Calls
use clusteration.Base.{
  ℕ, zero, suc, ◌+◌, ◌-◌, ◌/◌, String, ◌<>◌, Bool, true, false, not, ◌&&◌, ◌||◌, List, [], ◌∷◌,
  ◌++◌, keep, drop, length, Option, none, some, ◌=ₛ◌, ◌==◌, ltb, leb, if◌then◌else◌, is_empty,
}
use clusteration.Base.Text.{show, contains, lines}
use clusteration.Base.Json.{Json, Fields, str, obj, arr, field, end, get, repr}
use clusteration.Base.Json.Dumps.{dumps}
use clusteration.Base.Exec.{
  Exc, runtime, out_of_fuel, Result, ok, err, Exec, pure, raise, gets, of_result, try_except, ◌>>=◌,
  ◌>>◌,
}
use clusteration.Dokploy.{
  Outside, Session, Args, Printed, json, line, ApiCall, get_call, post_call, api_json, print,
  print_all, print_json, public_build, pause, has_build,
}
use clusteration.Dokploy.Redact.{redact}
use clusteration.Dokploy.Candidates.{Candidate, collect_candidates}

-- The text that `read_application_logs` takes out of a reply.
first_text : Json → Json → Json → Json → Json → String
first_text logs (str s) b c d = s
first_text logs a (str s) c d = s
first_text logs a b (str s) d = s
first_text logs a b c (str s) = s
first_text logs a b c d = dumps (redact logs)

log_text : Json → String
unfolding get first_text
log_text (str s) = s
log_text (obj d) = first_text (obj d) (get "logs" d) (get "log" d) (get "message" d) (get "data" d)
log_text j = dumps (redact j)

is_marked : String → String → Bool
unfolding contains
is_marked expected text =
    contains text "CLUSTERATION_RUNTIME"
    || contains text expected
    || contains text "Application startup failed"

-- `xs[-n:]`
abbrev last : ℕ → List String → List String
last n xs = drop (length xs - n) xs

summary : String → List String → List String
unfolding is_marked
summary expected texts =
    let matches = keep (is_marked expected) texts in
    if is_empty matches
    then "No CLUSTERATION_RUNTIME marker found in the latest application logs." ∷ last 40 texts
    else last 20 matches

module _ {N : Type 0} (t : Outside N) where
  -- `except RuntimeError`: a warning is printed.
  warned : String → Exc → Exec (Session N) Unit
  unfolding print raise
  warned label (runtime text) = print t (line ("WARN " <> label <> " failed: " <> text))
  warned label e = raise e

  unfoldable pub tolerated : String → Exec (Session N) Unit → Exec (Session N) Unit
  unfolding try_except warned
  tolerated label m = try_except m (warned label)

  lines_of : List String → List Printed
  lines_of [] = []
  lines_of (s ∷ ss) = line s ∷ lines_of ss

  -- `read_application_logs` and `print_runtime_log_summary`
  unfoldable pub log_summary : String → String → Exec (Session N) Unit
  unfolding api_json print print_all lines_of log_text summary lines
  log_summary app_id expected = do
    logs ← api_json t (
        get_call "application.readLogs" (
          field "applicationId" (str app_id)
            (field "tail" (str "300") (field "since" (str "all") end))))
    print t (line "== application.readLogs runtime proof ==")
    print_all t (lines_of (summary expected (lines (log_text logs))))
