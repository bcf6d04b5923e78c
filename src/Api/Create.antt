-- ===== src/Api/Create.antt =====
-- `create_vm` of backend/app/api/routes.py, and the fields of its payload, of backend/app/schemas/vms.py.
use clusteration.Base.{
  ℕ, ◌+◌, max, String, Bool, true, false, not, ◌&&◌, any, List, [], ◌∷◌, ◌++◌, first, Option, none,
  some, ◌=ₛ◌, ◌==◌, if◌then◌else◌, is_empty,
}
use clusteration.Base.Text.{lower, strip}
use clusteration.Base.Json.{pos, negsuc, str, num, field, end, get, truthy, int}
use clusteration.Base.Exec.{
  Exc, app, other, Result, ok, err, Exec, pure, raise, of_result, gets, raise_if, modify, ◌>>=◌,
  ◌>>◌,
}
use clusteration.Entities.{Vm, create_vm, Template, creating, SshStatus}
use clusteration.Settings.{Settings, VmSize, vm_sizes}
use clusteration.Readiness.{missing_runtime_settings}
use clusteration.Proxmox.{Transport}
use clusteration.Lifecycle.{find_template, is_disabled}
use clusteration.Lifecycle.Disk.{size_or_null}
use clusteration.Worker.{World}
use clusteration.Api.{
  Request, audit, not_configured, change_db, put_in_queue, call_out, add_queued,
  validate_create_preflight,
}

-- `normalize_identifiers`, of a text
unfoldable pub normalize_identifier : String → String
unfolding strip lower
normalize_identifier value = lower (strip value)

-- The payload, with its identifiers normalized and its fields of the lengths and forms of the schema.
pub record VmCreate : Type 0 where
  pub hostname : String
  pub template : String
  pub size : String
  pub disk_gb : ℕ
  pub root_password : String

abbrev pub is_live : Vm → Bool
is_live vm = elim vm.deleted_at [ none ↦ true | some _ ↦ false ]

-- `func.lower(VM.hostname) == hostname, VM.deleted_at.is_(None)`
unfoldable pub has_hostname : String → Vm → Bool
has_hostname hostname vm = is_live vm && lower vm.hostname =ₛ hostname

abbrev taken : Exc
taken = app "HOSTNAME_TAKEN" "já existe uma VM ativa com esse hostname" 409

abbrev pub is_some : Option Vm → Bool
is_some none = false
is_some (some _) = true

-- `int((template.defaults or {}).get("min_disk_gb") or 0)`; what is below 0 is as good as 0 to `max`.
unfoldable pub min_disk_gb : Template → Result ℕ
unfolding get truthy int
min_disk_gb template =
    let least = get "min_disk_gb" template.defaults in
    if not (truthy least) then ok 0 else elim (int least) [
      | some (pos n) ↦ ok n
      | some (negsuc n) ↦ ok 0
      | none ↦ err (other "ValueError")
    ]

module _ {N : Type 0} where
  unfoldable pub free_hostname : String → Exec (World N) Unit
  unfolding has_hostname
  free_hostname hostname = do
    existing ← gets (λ w. first (has_hostname hostname) w.db.vms)
    raise_if (is_some existing) taken

  sized : Option VmSize → Exec (World N) VmSize
  sized none = raise (app "VALIDATION_ERROR" "tamanho inválido" 400)
  sized (some size) = pure size

  usable : Option Template → Exec (World N) Template
  usable none = raise (app "TEMPLATE_NOT_FOUND" "template não encontrado" 404)
  usable (some template) =
      if is_disabled template
      then raise (app "TEMPLATE_DISABLED" "template desabilitado" 400)
      else pure template

  -- The row of the new VM, added.
  unfoldable pub add_vm : VmCreate → VmSize → ℕ → String → ℕ → Exec (World N) Vm
  add_vm payload size disk_gb node now = do
    vm ← gets (λ w. record {
      id = w.db.next_id;
      hostname = payload.hostname;
      template = payload.template;
      cpu = size.cpu;
      memory_mb = size.memory_mb;
      disk_gb = disk_gb;
      proxmox_vmid = none;
      node = node;
      status = creating;
      ssh_status = SshStatus.pending;
      ip_address = none;
      deleted_at = none;
      created_at = now;
    })
    change_db (λ db. record db { vms = db.vms ++ vm ∷ []; next_id = db.next_id + 1 })
    pure vm

module _ {N : Type 0} (t : Transport N) (settings : Settings) (templates : List Template)
    (req : Request) where
  -- What is done under the lock. No other request adds a VM while it is held; what else happens at the
  -- awaits of the session is left out.
  unfoldable pub create_locked :
      VmCreate → Template → VmSize → String × Option ℕ → Exec (World N) (ℕ × ℕ)
  unfolding free_hostname min_disk_gb add_vm
  create_locked payload template size (node, template_disk_gb) = do
    free_hostname payload.hostname
    least ← of_result (min_disk_gb template)
    let disk_gb = max payload.disk_gb least
    now ← gets (λ w. t.utcnow w.net)
    vm ← add_vm payload size disk_gb node now
    job_id ← add_queued t create_vm vm (
        field "operation" (str "queued") (
          field "node" (str node) (
            field "template" (str payload.template)
              (field "template_disk_gb" (size_or_null template_disk_gb) end))))
    audit t settings req "vm.create" vm (
        field "template" (str payload.template) (
          field "size" (str payload.size) (
            field "disk_gb" (num (pos disk_gb))
              (field "requested_disk_gb" (num (pos payload.disk_gb)) end))))
    put_in_queue (record {
      type = create_vm;
      job_id = job_id;
      vm_id = some vm.id;
      root_password = some payload.root_password;
      template = none;
    })
    pure (vm.id, job_id)

  -- The ids of the VM and of the job. While the preflight waits for Proxmox the other requests and the
  -- worker go on, and do `others` to the panel.
  unfoldable pub create : (World N → World N) → VmCreate → Exec (World N) (ℕ × ℕ)
  unfolding missing_runtime_settings sized usable free_hostname create_locked
  create others payload = do
    let missing = missing_runtime_settings settings
    raise_if (not (is_empty missing))
        (not_configured "configure o .env antes de criar VMs: " missing)
    size ← sized (vm_sizes payload.size)
    raise_if (not (any (λ gb. gb == payload.disk_gb) settings.vm_disk_choices))
        (app "VALIDATION_ERROR" "disco inválido" 400)
    template ← usable (find_template payload.template templates)
    free_hostname payload.hostname
    preflight ← call_out (validate_create_preflight t settings template)
    modify others
    create_locked payload template size preflight
