-- ===== src/Api.antt =====
-- backend/app/api/routes.py, the requests that concern VMs. A handler runs in one database session;
-- what it has added when it raises is rolled back, and it adds nothing before its last check.
pub mod Actions
pub mod Create
pub mod Sessions
pub mod Exposures
pub mod Guards
pub mod Hostnames
pub mod Lists
pub mod Diagnostics
use clusteration.Base.{
  ℕ, ◌+◌, String, ◌<>◌, Bool, true, false, not, List, [], ◌∷◌, ◌++◌, Option, none, some, ◌=ₛ◌,
  if◌then◌else◌, is_empty,
}
use clusteration.Base.Text.{before, strip, show, join}
use clusteration.Base.Json.{Json, Fields, str, num, pos, null, field, end}
use clusteration.Base.Exec.{
  Exc, proxmox, auth, app, ProxmoxKind, Result, ok, err, Exec, pure, raise, gets, modify,
  try_except, on_proxmox, raise_if, ◌>>=◌, ◌>>◌,
}
use clusteration.Entities.{Vm, Job, JobType, Template, AuditEvent}
use clusteration.Settings.{Settings}
use clusteration.Readiness.{missing_runtime_settings}
use clusteration.Database.{Db, get_vm, new_job, add_job}
use clusteration.Proxmox.{Transport, storage_status}
use clusteration.Proxmox.Request.{request}
use clusteration.Proxmox.Resolve.{take_next_id, resolve_template_node, vm_disk_size_gb}
use clusteration.Lifecycle.{preferred_node}
use clusteration.Worker.{Payload, World, enqueue, plain_payload}

-- What a handler reads of the HTTP request: the header `x-forwarded-for`, the peer, and the id.
pub record Request : Type 0 where
  pub forwarded_for : String
  pub client_host : Option String
  pub request_id : Option String

-- `client_ip` of backend/app/services/audit.py
unfoldable pub client_ip : Request → Option String
unfolding before strip
client_ip req =
    if req.forwarded_for =ₛ "" then req.client_host else some (strip (before req.forwarded_for ","))

-- `_audit_vm`, and `record_audit` of backend/app/services/audit.py
unfoldable pub audit_vm : Settings → Request → String → Vm → Fields → ℕ → Db → Db
unfolding client_ip show
audit_vm settings req action vm detail now db =
    let event : AuditEvent = record {
      id = db.next_id;
      action = action;
      actor = some settings.admin_username;
      source_ip = client_ip req;
      target_type = some "vm";
      target_id = some (show vm.id);
      target_label = some vm.hostname;
      detail = detail;
      request_id = req.request_id;
      created_at = now;
    } in
    record db { audit_events = db.audit_events ++ event ∷ []; next_id = db.next_id + 1 }

abbrev pub invalid_state : String → Exc
invalid_state msg = app "INVALID_STATE" msg 409

-- The error of `create_vm` and `reinstall_vm` where settings are missing.
abbrev pub not_configured : String → List String → Exc
unfolding join
not_configured text missing = app "PROXMOX_NOT_CONFIGURED" (text <> join ", " missing) 400

module _ {N : Type 0} where
  live : Option Vm → Exec (World N) Vm
  live none = raise (app "VM_NOT_FOUND" "VM não encontrada" 404)
  live (some vm) = elim vm.deleted_at [
    | none ↦ pure vm
    | some _ ↦ raise (app "VM_NOT_FOUND" "VM não encontrada" 404)
  ]

  unfoldable pub get_live_vm : ℕ → Exec (World N) Vm
  unfolding live
  get_live_vm id = do found ← gets (λ w. get_vm id w.db); live found

  abbrev pub change_db : (Db → Db) → Exec (World N) Unit
  change_db f = modify (λ w. record w { db = f w.db })

  unfoldable pub put_in_queue : Payload → Exec (World N) Unit
  unfolding enqueue modify
  put_in_queue payload = modify (enqueue payload)

  -- A call of the Proxmox client within a handler.
  unfoldable pub call_out : {A : Type 0} → Exec N A → Exec (World N) A
  call_out m w = let (a, n) = m w.net in (a, record w { net = n })

module _ {N : Type 0} (t : Transport N) where
  abbrev pub time : World N → ℕ
  time w = t.utcnow w.net

  -- A queued job for the VM: its row, committed, and its id.
  unfoldable pub add_queued : JobType → Vm → Fields → Exec (World N) ℕ
  unfolding gets modify
  add_queued type vm meta = do
    job ← gets (λ w. new_job type vm.id meta (time w) w.db)
    change_db (add_job job)
    pure job.id

  -- The id of the new job.
  unfoldable pub enqueue_power_job : Vm → JobType → Exec (World N) ℕ
  unfolding add_queued put_in_queue
  enqueue_power_job vm type = do
    job_id ← add_queued type vm end
    put_in_queue (plain_payload type job_id (some vm.id))
    pure job_id

  unfoldable pub audit : Settings → Request → String → Vm → Fields → Exec (World N) Unit
  unfolding audit_vm modify
  audit settings req action vm detail =
      modify (λ w. record w { db = audit_vm settings req action vm detail (time w) w.db })

  to_app_error : {A : Type 0} → ProxmoxKind → String → Exec N A
  to_app_error auth msg = raise (app "PROXMOX_AUTH_FAILED" msg 403)
  to_app_error kind msg = raise (app "PROXMOX_UNAVAILABLE" msg 502)

  -- The node of the template, and the size of the template's disk.
  unfoldable pub validate_create_preflight : Settings → Template → Exec N (String × Option ℕ)
  unfolding on_proxmox to_app_error
  validate_create_preflight settings template =
      try_except
        (do
          take_next_id t
          node ←
              resolve_template_node t (preferred_node settings template)
                template.proxmox_template_vmid
          disk_gb ← vm_disk_size_gb t node template.proxmox_template_vmid
          request t (storage_status node settings.proxmox_default_storage)
          pure (node, disk_gb))
        (on_proxmox to_app_error)
