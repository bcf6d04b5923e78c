-- ===== src/Api/Diagnostics.antt =====
-- The requests of backend/app/api/routes.py that tell how the panel is set up.
use clusteration.Base.{
  ℕ, String, ◌<>◌, Bool, true, false, not, List, [], ◌∷◌, ◌++◌, map, length, first, is_empty,
  Option, none, some, ◌=ₛ◌, if◌then◌else◌,
}
use clusteration.Base.Text.{strip, lower, join, show, str_leb}
use clusteration.Base.Exec.{
  ProxmoxKind, auth, ok, err, Exec, pure, modify, try_except, on_proxmox, ◌>>=◌, ◌>>◌,
}
use clusteration.Entities.{Template}
use clusteration.Settings.{Settings, VmSize, vm_sizes, effective_build_id}
use clusteration.Readiness.{missing_runtime_settings, MakeUrl, Durability, database_durability}
use clusteration.Database.{Db}
use clusteration.Proxmox.{Transport, storage_status}
use clusteration.Proxmox.Request.{request}
use clusteration.Proxmox.Resolve.{take_next_id, resolve_template_node, vm_disk_size_gb}
use clusteration.Lifecycle.{preferred_node}
use clusteration.Api.Lists.{order_rows}

pub record Options : Type 0 where
  pub sizes : List (String × Option VmSize)
  pub disk_choices : List ℕ
  pub missing_runtime : List String

-- `GET /options`
options : Settings → Options
unfolding missing_runtime_settings
options settings = record {
  sizes = ("small", vm_sizes "small") ∷ ("medium", vm_sizes "medium") ∷ [];
  disk_choices = settings.vm_disk_choices;
  missing_runtime = missing_runtime_settings settings;
}

-- `GET /readiness`: `ready`, and what is missing
readiness : Settings → Bool × List String
unfolding missing_runtime_settings
readiness settings = let missing = missing_runtime_settings settings in (is_empty missing, missing)

pub record SystemStatus : Type 0 where
  pub runtime_ready : Bool
  pub missing_runtime : List String
  pub database : Durability
  pub templates_configured : ℕ
  pub build : String

-- `GET /system/status`, without the constants
system_status : MakeUrl → Settings → Db → SystemStatus
unfolding missing_runtime_settings database_durability effective_build_id
system_status make_url settings db = record {
  runtime_ready = is_empty (missing_runtime_settings settings);
  missing_runtime = missing_runtime_settings settings;
  database = database_durability make_url settings;
  templates_configured = length db.templates;
  build = effective_build_id settings;
}

pub record Resolved : Type 0 where
  pub os : String
  pub vmid : ℕ
  pub node : String
  pub disk_gb : Option ℕ

pub record Check : Type 0 where
  pub name : String
  pub passed : Bool
  pub message : String
  pub items : List Resolved

abbrev check : String → Bool → String → Check
check name passed message = record { name = name; passed = passed; message = message; items = [] }

-- `storage_checks`, by `node/storage`
pub record StorageCheck : Type 0 where
  pub key : String
  pub check : Check

abbrev is_checked : String → List StorageCheck → Bool
is_checked key [] = false
is_checked key (s ∷ ss) = if s.key =ₛ key then true else is_checked key ss

all_ok : List Check → Bool
all_ok [] = true
all_ok (c ∷ cs) = if c.passed then all_ok cs else false

pub record Diagnostics : Type 0 where
  pub passed : Bool
  pub checks : List Check
  pub setup_hint : Bool

-- The hint stands where something failed.
diagnosed : List Check → Diagnostics
unfolding all_ok
diagnosed checks = record {
  passed = all_ok checks;
  checks = checks;
  setup_hint = not (all_ok checks);
}

-- What the block of the checks has found so far, with the world outside.
pub record Probe (N : Type 0) : Type 0 where
  pub net : N
  pub checks : List Check

module _ {N : Type 0} (t : Transport N) (settings : Settings) where
  probe : {A : Type 0} → Exec N A → Exec (Probe N) A
  probe m p = let (a, n) = m p.net in (a, record p { net = n })

  add_checks : List Check → Exec (Probe N) Unit
  unfolding modify
  add_checks checks = modify (λ p. record p { checks = p.checks ++ checks })

  storage_check : String → String → Exec N StorageCheck
  unfolding on_proxmox try_except
  storage_check node key =
      try_except
        (do
          request t (storage_status node settings.proxmox_default_storage)
          pure (record {
            key = key;
            check = check ("storage:" <> key) true "storage acessível pelo token";
          }))
        (on_proxmox
          λ kind msg. pure (record { key = key; check = check ("storage:" <> key) false msg }))

  with_storage : String → String → List StorageCheck → Exec N (List StorageCheck)
  unfolding storage_check
  with_storage node key storages =
      if is_checked key storages
      then pure storages
      else (do s ← storage_check node key; pure (storages ++ s ∷ []))

  -- The loop over the templates.
  resolve_all :
      List Template → List StorageCheck → List Resolved → Exec N (List StorageCheck × List Resolved)
  unfolding with_storage
  resolve_all [] storages results = pure (storages, results)
  resolve_all (template ∷ templates) storages results = do
    node ← resolve_template_node t (preferred_node settings template) template.proxmox_template_vmid
    disk_gb ← vm_disk_size_gb t node template.proxmox_template_vmid
    storages' ← with_storage node (node <> "/" <> settings.proxmox_default_storage) storages
    resolve_all templates storages' (
        results
        ++ record {
          os = template.os;
          vmid = template.proxmox_template_vmid;
          node = node;
          disk_gb = disk_gb;
        }
          ∷ [])

  check_templates : List Template → Exec (Probe N) Unit
  unfolding probe add_checks resolve_all show
  check_templates templates = do
    next ← probe (take_next_id t)
    add_checks (check "nextid" true ("Proxmox API OK; próximo VMID " <> show next) ∷ [])
    found ← probe (resolve_all templates [] [])
    add_checks (map (λ (s : StorageCheck). s.check) found.0)
    add_checks (
        record (check "templates" true (show (length found.1) <> " templates resolvidos")) {
          items = found.1;
        }
        ∷ [])

  failed_check : ProxmoxKind → String → Check
  failed_check auth msg = check "proxmox-auth" false msg
  failed_check kind msg = check "proxmox-api" false msg

  run_checks : List Template → List Check → Exec N Diagnostics
  unfolding check_templates failed_check diagnosed add_checks
  run_checks templates checks n =
      let (r, p) =
        try_except (check_templates templates)
          (on_proxmox λ kind msg. add_checks (failed_check kind msg ∷ []))
          (record { net = n; checks = checks }) in
      (elim r [ ok _ ↦ ok (diagnosed p.checks) | err e ↦ err e ], p.net)

  stop_with : List Check → Exec N Diagnostics
  stop_with checks = pure (record { passed = false; checks = checks; setup_hint = true })

  runtime_check : Check
  runtime_check = check "runtime" true "variáveis obrigatórias presentes"

  check_selected : String → Option Template → Exec N Diagnostics
  unfolding run_checks stop_with runtime_check
  check_selected os none =
      stop_with
        (runtime_check ∷ check "template" false ("template " <> os <> " não encontrado") ∷ [])
  check_selected os (some template) = run_checks (template ∷ []) (runtime_check ∷ [])

  check_every : List Template → Exec N Diagnostics
  unfolding run_checks stop_with runtime_check
  check_every [] =
      stop_with (runtime_check ∷ check "templates" false "nenhum template configurado" ∷ [])
  check_every (template ∷ templates) = run_checks (template ∷ templates) (runtime_check ∷ [])

  -- `proxmox_diagnostics`; an empty `template` is none.
  proxmox_diagnostics : Db → String → Exec N Diagnostics
  unfolding check_selected check_every stop_with missing_runtime_settings strip lower join
      order_rows str_leb
  proxmox_diagnostics db template_os =
      let missing = missing_runtime_settings settings in
      let os = lower (strip template_os) in
      if not (is_empty missing)
      then stop_with (check "runtime" false ("variáveis ausentes: " <> join ", " missing) ∷ [])
      else if template_os =ₛ ""
      then check_every (order_rows (λ (x y : Template). str_leb x.os y.os) db.templates)
      else check_selected os (first (λ (x : Template). x.os =ₛ os) db.templates)
