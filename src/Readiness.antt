-- ===== src/Readiness.antt =====
-- backend/app/core/readiness.py: the settings without which the panel cannot create or reinstall VMs.
use clusteration.Base.{
  Option, none, some, if◌then◌else◌, String, Bool, true, false, ◌||◌, List, [], ◌∷◌, ◌=ₛ◌, is_empty,
}
use clusteration.Base.Text.{strip, lower, startswith}
use clusteration.Settings.{Settings}

-- `not str(value or "").strip()`
abbrev is_blank : String → Bool
unfolding strip
is_blank value = strip value =ₛ ""

is_placeholder : String → Bool
unfolding strip lower
is_placeholder secret =
    let s = lower (strip secret) in s =ₛ "change-me" || s =ₛ "secret" || s =ₛ "placeholder"

abbrev name_if : String → Bool → List String → List String
name_if name true names = name ∷ names
name_if name false names = names

-- The names are sorted, and each stands there once.
unfoldable pub missing_runtime_settings : Settings → List String
unfolding is_placeholder strip
missing_runtime_settings s =
    name_if "CONSOLE_SSH_PRIVATE_KEY" (is_blank s.console_ssh_private_key) (
      name_if "CONSOLE_SSH_PUBLIC_KEY" (is_blank s.console_ssh_public_key) (
        name_if "PROXMOX_HOST" (is_blank s.proxmox_host) (
          name_if "PROXMOX_TOKEN_ID" (is_blank s.proxmox_token_id) (
            name_if "PROXMOX_TOKEN_SECRET"
              (is_blank s.proxmox_token_secret || is_placeholder s.proxmox_token_secret) []))))

unfoldable pub is_runtime_ready : Settings → Bool
unfolding missing_runtime_settings
is_runtime_ready s = is_empty (missing_runtime_settings s)

-- What `make_url` of SQLAlchemy reads: the backend, the database, and the host.
pub record Url : Type 0 where
  pub backend : String
  pub database : Option String
  pub host : Option String

-- `none` for an exception
abbrev pub MakeUrl : Type 0
MakeUrl = String → Option Url

abbrev pub or_empty : Option String → String
or_empty none = ""
or_empty (some s) = s

-- `url.database or ""`
abbrev pub database_or_empty : Url → String
database_or_empty url = or_empty url.database

pub record Durability : Type 0 where
  pub backend : String
  pub database : String
  pub durable : Bool
  pub backup_dir : Option String
  pub message : String

abbrev host_or_backend : Url → String
host_or_backend url = if or_empty url.host =ₛ "" then url.backend else or_empty url.host

durability_of : Settings → Option Url → Durability
unfolding startswith
durability_of settings none = record {
  backend = "unknown";
  database = "";
  durable = false;
  backup_dir = none;
  message = "DATABASE_URL inválida";
}
durability_of settings (some url) =
    let durable = startswith (database_or_empty url) "/data/" in
    if url.backend =ₛ "sqlite"
    then record {
      backend = "sqlite";
      database = database_or_empty url;
      durable = durable;
      backup_dir = some settings.backup_dir;
      message =
          if durable
          then "SQLite em /data com volume persistente"
          else "SQLite fora de /data: risco de reset em rebuild/redeploy";
    }
    else record {
      backend = url.backend;
      database = host_or_backend url;
      durable = true;
      backup_dir = none;
      message = "Banco externo/persistente gerenciado fora do container";
    }

unfoldable pub database_durability : MakeUrl → Settings → Durability
unfolding durability_of
database_durability make_url settings = durability_of settings (make_url settings.database_url)
