-- ===== src/Tests/Repair.antt =====
-- The repair script at concrete hosts.
use clusteration.Base.{
  ℕ, ◌+◌, ◌≡◌, refl, String, ◌=ₛ◌, Bool, true, false, if◌then◌else◌, [], All, some, arith,
}
use clusteration.Base.Json.{Json, str, arr, obj, nil, item, field, end}
use clusteration.Base.Exec.{ok, ◌>>=◌}
use clusteration.Base.Exec.Ends.{IsFine}
use clusteration.Dokploy.{Outside, Session, Args, http_error, payload, loaded}
use clusteration.Dokploy.Redact.{redact}
use clusteration.Dokploy.Redact.Hidden.{IsHidden, redact-hides}
use clusteration.Dokploy.Rules.{IsClock, time}
use clusteration.Dokploy.Audit.{run}
use clusteration.Dokploy.Audit.Reads.{IsGet, run-reads}
use clusteration.Dokploy.Audit.Ended.{run-ends}

abbrev application : Json
application = obj (
    field "applicationId" (str "a1") (
      field "appName" (str "clusteration") (
        field "ENV" (str "API=1")
          (field "mounts" (arr (item (obj (field "token" (str "t") end)) nil)) end))))

-- A host that answers every read and refuses every change; a request takes a second.
abbrev host : Outside ℕ
host = record {
  call =
      λ c n. (if c.method =ₛ "GET" then payload (some application) else http_error 403 "no", n + 1);
  version = λ url n. (loaded (obj (field "build" (str "old") end)), n + 1);
  sleep = λ d n. n + d;
  now = λ n. n;
}

abbrev clock : IsClock host
clock = record {
  now-sleep = λ d n. omega arith;
  now-call = λ c n. omega arith;
  now-version = λ url n. omega arith;
}

abbrev start : Session ℕ
start = record { net = 0; sent = []; printed = [] }

abbrev args_of : Bool → String → Args
args_of repair key = record {
  api_key = key;
  app_id = "";
  app_name = "clusteration";
  domain = "app.thiagao.online";
  public_url = "https://app.thiagao.online/";
  expected_build = "new";
  repair = repair;
  restart = true;
  deploys = true;
  redeploys = false;
  clean_queues = false;
  logs = true;
  wait = 12;
}

audit_exit : (run host (args_of false "k") start).0 ≡ ok 3
unfolding run ◌>>=◌
audit_exit = refl

keyless_exit : (run host (args_of true "") start).0 ≡ ok 2
unfolding run ◌>>=◌
keyless_exit = refl

redact-hides_example :
    IsHidden (redact application) × (redact (redact application) ≡ redact application)
redact-hides_example = redact-hides application

run-reads_example : All IsGet (run host (args_of false "k") start).1.sent
run-reads_example = run-reads host (args_of false "k") refl start tt

run-ends_example : IsFine (time host) start (run host (args_of true "k") start)
run-ends_example = run-ends host clock (args_of true "k") start
