-- ===== src/Auth.antt =====
-- backend/app/api/auth.py, backend/app/core/auth.py and backend/app/services/credentials.py. A handler
-- reads each of its two clocks once, when the request arrives. passlib, the random numbers and the
-- mail server are parameters.
pub mod Throttle
pub mod Credentials
pub mod Login
pub mod Reset
use clusteration.Base.{
  ℕ, ◌+◌, String, ◌<>◌, Bool, List, [], ◌∷◌, ◌++◌, Option, none, some, ◌=ₛ◌, if◌then◌else◌, ◌≡◌,
  true,
}
use clusteration.Base.Text.{before, strip}
use clusteration.Base.Json.{end}
use clusteration.Base.Exec.{Exc, app, Result, ok}
use clusteration.Entities.{AuditEvent}
use clusteration.Database.{Db}
use clusteration.Api.{Request, client_ip}

-- The times of a peer's hits, in milliseconds of `time.monotonic`; a `defaultdict(list)`.
abbrev pub Bucket : Type 0
Bucket = String → List ℕ

abbrev pub no_hits : Bucket
no_hits ip = []

-- `bucket[ip] = hits`
abbrev pub set_hits : String → List ℕ → Bucket → Bucket
set_hits ip hits bucket other = if other =ₛ ip then hits else bucket other

pub record Mail : Type 0 where
  pub to : String
  pub subject : String
  pub body : String

-- The state of the process that the requests share, the mails that have left, and the flag
-- `authenticated` of the session of the browser.
pub record Panel : Type 0 where
  pub db : Db
  pub login_fails : Bucket
  pub reset_requests : Bucket
  pub reset_attempts : Bucket
  pub outbox : List Mail
  pub authenticated : Bool

-- The libraries: a hash has a salt, which is drawn anew for each; `verify` may raise.
pub record Libraries : Type 0 where
  pub hash : ℕ → String → String
  pub verify : String → String → Result Bool
  pub randbelow : ℕ → ℕ → ℕ
  pub accepts_mail : Mail → Bool

-- What passlib documents: a password is verified against each of its hashes.
pub record VerifiesOwnHashes (lib : Libraries) : Type 0 where
  pub verify-hash :
      (salt : ℕ) (password : String) → lib.verify password (lib.hash salt password) ≡ ok true

-- A request with its times, `time.monotonic()` and `datetime.now(UTC)`, and what the random generators
-- give while it is served.
pub record Visit : Type 0 where
  pub req : Request
  pub monotonic : ℕ
  pub utc : ℕ
  pub draw : ℕ

or_unknown : Option String → String
or_unknown none = "unknown"
or_unknown (some host) = host

-- `_client_ip`
unfoldable pub visitor : Request → String
unfolding or_unknown before strip
visitor req =
    if req.forwarded_for =ₛ ""
    then or_unknown req.client_host
    else strip (before req.forwarded_for ",")

-- `record_audit` with an actor and no target, committed
unfoldable pub audited : Visit → String → String → Panel → Panel
unfolding client_ip
audited v action actor w =
    let event : AuditEvent = record {
      id = w.db.next_id;
      action = action;
      actor = some actor;
      source_ip = client_ip v.req;
      target_type = none;
      target_id = none;
      target_label = none;
      detail = end;
      request_id = v.req.request_id;
      created_at = v.utc;
    } in
    record w {
      db = record w.db {
        audit_events = w.db.audit_events ++ event ∷ [];
        next_id = w.db.next_id + 1;
      };
    }

abbrev pub rate_limited : String → Exc
rate_limited msg = app "RATE_LIMITED" msg 429

abbrev pub weak_password : Exc
weak_password = app "WEAK_PASSWORD" "a nova senha precisa ter ao menos 8 caracteres" 400
