-- ===== src/Api/Actions.antt =====
-- The requests that act on a VM that exists, of backend/app/api/routes.py, and what `serialize_vm`
-- offers of them.
use clusteration.Base.{
  ℕ, String, Bool, true, false, not, ◌&&◌, List, Option, none, some, ◌=ₛ◌, if◌then◌else◌, is_empty,
}
use clusteration.Base.Json.{Json, str, null, field, end}
use clusteration.Base.Exec.{app, Exec, pure, raise, raise_if, ◌>>=◌, ◌>>◌}
use clusteration.Entities.{
  Vm, start_vm, stop_vm, reboot_vm, reinstall_vm, delete_vm, ssh_readiness_check, Template,
  VmStatus, SshStatus, is_running, is_startable, is_settled, is_ready, stopped, starting, stopping,
  rebooting, deleting, deleted, creating, provisioning,
}
use clusteration.Settings.{Settings}
use clusteration.Readiness.{missing_runtime_settings}
use clusteration.Database.{put_vm}
use clusteration.Proxmox.{Transport}
use clusteration.Lifecycle.{find_template, is_disabled}
use clusteration.Lifecycle.Disk.{size_or_null}
use clusteration.Worker.{World, plain_payload}
use clusteration.Api.{
  Request, audit, invalid_state, not_configured, get_live_vm, change_db, put_in_queue, call_out,
  add_queued, enqueue_power_job, validate_create_preflight,
}

abbrev has_vmid : Vm → Bool
has_vmid vm = elim vm.proxmox_vmid [ none ↦ false | some _ ↦ true ]

-- `str(vm.status)` as it stands in the database
unfoldable pub status_name : VmStatus → String
status_name creating = "creating"
status_name provisioning = "provisioning"
status_name stopped = "stopped"
status_name starting = "starting"
status_name VmStatus.running = "running"
status_name stopping = "stopping"
status_name rebooting = "rebooting"
status_name deleting = "deleting"
status_name deleted = "deleted"
status_name VmStatus.error = "error"

abbrev text_or_null : Option String → Json
text_or_null none = null
text_or_null (some s) = str s

module _ {N : Type 0} (t : Transport N) (settings : Settings) (req : Request) where
  -- The id of the job, as in the handlers below.
  unfoldable pub start : ℕ → Exec (World N) ℕ
  start vm_id = do
    vm ← get_live_vm vm_id
    raise_if (not (is_startable vm.status)) (invalid_state "VM não pode ser iniciada neste estado")
    raise_if (not (has_vmid vm))
        (invalid_state "VM ainda não existe no Proxmox; tente criar novamente ou remova o registro")
    audit t settings req "vm.start" vm end
    enqueue_power_job t vm start_vm

  unfoldable pub stop : ℕ → Exec (World N) ℕ
  stop vm_id = do
    vm ← get_live_vm vm_id
    raise_if (not (is_running vm.status)) (invalid_state "VM não está running")
    audit t settings req "vm.stop" vm end
    enqueue_power_job t vm stop_vm

  unfoldable pub reboot : ℕ → Exec (World N) ℕ
  reboot vm_id = do
    vm ← get_live_vm vm_id
    raise_if (not (is_running vm.status)) (invalid_state "VM não está running")
    audit t settings req "vm.reboot" vm end
    enqueue_power_job t vm reboot_vm

  unfoldable pub delete : ℕ → String → Exec (World N) ℕ
  unfolding status_name
  delete vm_id confirm_hostname = do
    vm ← get_live_vm vm_id
    raise_if (not (confirm_hostname =ₛ vm.hostname))
        (app "HOSTNAME_MISMATCH" "hostname de confirmação não confere" 400)
    raise_if (not (is_settled vm.status)) (invalid_state "VM não pode ser deletada neste estado")
    job_id ← add_queued t delete_vm vm end
    audit t settings req "vm.delete" vm (
        field "proxmox_vmid" (size_or_null vm.proxmox_vmid) (
          field "ip_address" (text_or_null vm.ip_address)
            (field "node" (str vm.node) (field "status_before" (str (status_name vm.status)) end))))
    put_in_queue (plain_payload delete_vm job_id (some vm.id))
    pure job_id

  unfoldable pub recheck_ssh : ℕ → Exec (World N) ℕ
  recheck_ssh vm_id = do
    vm ← get_live_vm vm_id
    raise_if (not (is_running vm.status))
        (invalid_state "a VM precisa estar running para checar o SSH")
    change_db (put_vm (record vm { ssh_status = SshStatus.pending }))
    enqueue_power_job t vm ssh_readiness_check

module _ {N : Type 0} (t : Transport N) (settings : Settings) (templates : List Template)
    (req : Request) where
  template_or_missing : Option Template → Exec (World N) Template
  template_or_missing none = raise (app "TEMPLATE_NOT_FOUND" "template não encontrado" 404)
  template_or_missing (some template) =
      if is_disabled template
      then raise (app "TEMPLATE_DISABLED" "template desabilitado" 400)
      else pure template

  -- `payload.template or vm.template`
  abbrev chosen_os : Option String → Vm → String
  chosen_os none vm = vm.template
  chosen_os (some os) vm = if os =ₛ "" then vm.template else os

  unfoldable pub reinstall : ℕ → String → Option String → String → Exec (World N) ℕ
  unfolding missing_runtime_settings template_or_missing
  reinstall vm_id confirm_hostname template root_password = do
    let missing = missing_runtime_settings settings
    raise_if (not (is_empty missing))
        (not_configured "configure o .env antes de reinstalar VMs: " missing)
    vm ← get_live_vm vm_id
    raise_if (not (confirm_hostname =ₛ vm.hostname))
        (app "HOSTNAME_MISMATCH" "hostname de confirmação não confere" 400)
    raise_if (not (is_settled vm.status)) (invalid_state "VM não pode ser reinstalada neste estado")
    let os = chosen_os template vm
    found ← template_or_missing (find_template os templates)
    preflight ← call_out (validate_create_preflight t settings found)
    job_id ← add_queued t reinstall_vm vm (
        field "operation" (str "queued") (
          field "template" (str os) (
            field "node" (str preflight.0)
              (field "template_disk_gb" (size_or_null preflight.1) end))))
    audit t settings req "vm.reinstall" vm (
        field "previous_template" (str vm.template) (
          field "next_template" (str os) (
            field "proxmox_vmid" (size_or_null vm.proxmox_vmid)
              (field "ip_address" (text_or_null vm.ip_address) (field "node" (str vm.node) end)))))
    put_in_queue (record {
      type = reinstall_vm;
      job_id = job_id;
      vm_id = some vm.id;
      root_password = some root_password;
      template = some os;
    })
    pure job_id

pub record VmActions : Type 0 where
  pub can_start : Bool
  pub can_stop : Bool
  pub can_reboot : Bool
  pub can_terminal : Bool
  pub can_delete : Bool
  pub can_reinstall : Bool
  pub can_recheck : Bool

-- `actions` of `serialize_vm`
unfoldable pub actions_of : Vm → VmActions
actions_of vm =
    let running = is_running vm.status in
    let ssh_ready = is_ready vm.ssh_status in
    record {
      can_start = has_vmid vm && is_startable vm.status;
      can_stop = running;
      can_reboot = running;
      can_terminal = running && ssh_ready;
      can_delete = is_settled vm.status;
      can_reinstall = is_settled vm.status;
      can_recheck = running && not ssh_ready;
    }
