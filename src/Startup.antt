-- ===== src/Startup.antt =====
-- backend/app/main.py: what happens before the first request, and what is added to each response.
-- `make_url` of SQLAlchemy is a parameter.
pub mod Templates
pub mod Order
use clusteration.Base.{
  ℕ, zero, suc, String, ◌<>◌, Bool, true, false, not, ◌&&◌, ◌||◌, List, [], ◌∷◌, ◌++◌, any, Option,
  none, some, ◌=ₛ◌, if◌then◌else◌,
}
use clusteration.Base.Text.{startswith, lower}
use clusteration.Base.Json.{repr, null, str}
use clusteration.Base.Exec.{runtime, app, Exc, Result, ok, err}
use clusteration.Settings.{Settings, effective_build_id}
use clusteration.Readiness.{Url, MakeUrl, database_or_empty}
use clusteration.Database.{Db}
use clusteration.Auth.Credentials.{seed_admin_credential}
use clusteration.Proxmox.{Transport}
use clusteration.Worker.{World, work}
use clusteration.Worker.Recovery.{mark_orphaned_running_as_failed, requeue_queued_jobs}
use Templates.{seed_templates}

-- The test of `_assert_durable_db` on a URL that could be read.
is_ephemeral : Url → Bool
unfolding startswith
is_ephemeral url = url.backend =ₛ "sqlite" && not (startswith (database_or_empty url) "/data")

-- `repr(url.database)`
repr_database : Option String → String
repr_database none = repr null
repr_database (some s) = repr (str s)

ephemeral_refused : Url → Exc
unfolding repr_database
ephemeral_refused url = runtime (
    "Produção com SQLite fora de /data ("
    <> repr_database url.database
    <> ") — risco de perda de dados. "
    <> "Configure DATABASE_URL=sqlite+aiosqlite:////data/vmpanel.db (volume persistente) ou use Postgres.")

durable_enough : Option Url → Result {0} Unit
unfolding is_ephemeral ephemeral_refused
durable_enough none = ok tt
durable_enough (some url) = if is_ephemeral url then err (ephemeral_refused url) else ok tt

-- `_assert_durable_db`
unfoldable pub assert_durable_db : MakeUrl → Settings → Result {0} Unit
unfolding durable_enough
assert_durable_db make_url settings =
    if not (settings.environment =ₛ "production")
    then ok tt
    else durable_enough (make_url settings.database_url)

label_of : Option Url → String
label_of none = "unknown"
label_of (some url) =
    if url.backend =ₛ "sqlite"
    then "sqlite:" <> (if database_or_empty url =ₛ "" then "<memory>" else database_or_empty url)
    else url.backend

-- `_runtime_db_label`
unfoldable pub runtime_db_label : MakeUrl → Settings → String
unfolding label_of
runtime_db_label make_url settings = label_of (make_url settings.database_url)

-- The line that `lifespan` prints.
unfoldable pub runtime_line : MakeUrl → Settings → String → String
unfolding runtime_db_label effective_build_id
runtime_line make_url settings web_dir =
    "CLUSTERATION_RUNTIME "
    <> "build="
    <> effective_build_id settings
    <> " env="
    <> settings.environment
    <> " db="
    <> runtime_db_label make_url settings
    <> " web_dir="
    <> web_dir

module _ {N : Type 0} (make_url : MakeUrl) (settings : Settings) (now : ℕ) where
  recovered : Result Db → World N → Result {0} Unit × World N
  unfolding requeue_queued_jobs
  recovered (err e) w = (err e, w)
  recovered (ok db) w = (ok tt, requeue_queued_jobs (record w { db = db }))

  prepared : World N → Result {0} Unit × World N
  unfolding seed_templates seed_admin_credential recovered mark_orphaned_running_as_failed
  prepared w =
      let db = seed_admin_credential settings (seed_templates settings now w.db) in
      recovered (mark_orphaned_running_as_failed db) (record w { db = db })

  go_ahead : Result {0} Unit → World N → Result {0} Unit × World N
  unfolding prepared
  go_ahead (err e) w = (err e, w)
  go_ahead (ok _) w = prepared w

  -- `lifespan` up to the payloads that `requeue_queued_jobs` puts in the queue: the worker is started before
  -- them, but waits for the first.
  unfoldable pub before_work : World N → Result {0} Unit × World N
  unfolding assert_durable_db go_ahead
  before_work w = go_ahead (assert_durable_db make_url settings) w

-- Some rounds of `worker_loop`
unfoldable pub works : {N : Type 0} → Transport N → Settings → ℕ → World N → World N
unfolding work
works t settings zero w = w
works t settings (suc n) w = works t settings n (work t settings w.db.templates w)

served :
    {N : Type 0}
    → Transport N
    → Settings
    → ℕ
    → Result {0} Unit × World N
    → Result {0} Unit × World N
unfolding works
served t settings rounds (err e, w) = (err e, w)
served t settings rounds (ok _, w) = (ok tt, works t settings rounds w)

-- `lifespan` up to `yield`, where the worker has had some rounds, at the awaits behind its first payload.
unfoldable pub lifespan :
    {N : Type 0} → MakeUrl → Settings → ℕ → Transport N → ℕ → World N → Result {0} Unit × World N
unfolding before_work served
lifespan make_url settings now t rounds w =
    served t settings rounds (before_work make_url settings now w)

pub record WebResponse : Type 0 where
  pub status : ℕ
  pub headers : List (String × String)

abbrev pub has_header : String → List (String × String) → Bool
unfolding lower
has_header name = any (λ (h : String × String). h.0 =ₛ lower name)

-- `headers.setdefault(name, value)` of Starlette, which holds the names in lower case
abbrev pub set_default : String → String → List (String × String) → List (String × String)
unfolding has_header lower
set_default name value headers =
    if has_header name headers then headers else headers ++ (lower name, value) ∷ []

-- `security_headers`
unfoldable pub security_headers : Settings → WebResponse → WebResponse
unfolding set_default
security_headers settings response =
    let headers = set_default "Referrer-Policy" "strict-origin-when-cross-origin" (
      set_default "X-Frame-Options" "DENY"
        (set_default "X-Content-Type-Options" "nosniff" response.headers)) in
    record response {
      headers =
          if settings.environment =ₛ "production"
          then set_default "Strict-Transport-Security" "max-age=31536000" headers
          else headers;
    }

abbrev starts_with_any : String → List String → Bool
unfolding startswith
starts_with_any s = any (λ p. startswith s p)

-- Whether `spa_no_cache` forbids the browser to keep the response.
unfoldable pub is_not_cached : String → String → Bool
unfolding starts_with_any
is_not_cached method path =
    let reads = method =ₛ "GET" || method =ₛ "HEAD" in
    let is_api = starts_with_any path ("/api" ∷ "/health" ∷ "/terminal" ∷ []) in
    let is_asset = starts_with_any path ("/js/" ∷ "/css/" ∷ "/img/" ∷ []) in
    if is_asset && reads then true else if not is_api && reads then true else false

-- The route of the single-page application: the index, or 404.
unfoldable pub spa : Bool → String → Result String
unfolding starts_with_any
spa has_index full_path =
    if starts_with_any full_path ("api/" ∷ "health" ∷ "terminal/" ∷ [])
    then err (app "INTERNAL_ERROR" "Not Found" 404)
    else if has_index
    then ok "index.html"
    else err (app "INTERNAL_ERROR" "Not Found" 404)
