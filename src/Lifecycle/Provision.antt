-- ===== src/Lifecycle/Provision.antt =====
-- `provision_vm_from_template`, `create_vm_job` and `reinstall_vm_job` of
-- backend/app/services/lifecycle.py.
pub mod Ends
pub mod Rows
pub mod Calls
pub mod Tracked
pub mod OneVm
pub mod Reinstall
use clusteration.Base.{
  ℕ, String, ◌<>◌, Bool, true, false, List, Option, none, some, ◌=ₛ◌, if◌then◌else◌,
}
use clusteration.Base.Text.{strip}
use clusteration.Base.Json.{Json, Fields, str, num, pos, field, end}
use clusteration.Base.Exec.{
  Exc, runtime, ProxmoxKind, Exec, pure, raise, gets, try_except, on_proxmox, raise_if, ◌>>=◌, ◌>>◌,
}
use clusteration.Entities.{Vm, Template, SshStatus, VmStatus, deleting, provisioning, pending}
use clusteration.Settings.{Settings}
use clusteration.Proxmox.{Transport, clone, put_config, status_action}
use clusteration.Proxmox.Request.{request}
use clusteration.Proxmox.Resolve.{take_next_id, resolve_template_node}
use clusteration.Proxmox.Wait.{wait_for_task, wait_for_ip, reset_machine_id}
use clusteration.Lifecycle.{
  Run, commit, call, stamp, set_vm, set_status, set_ssh_status, set_node, on_timeout, polled_at,
  preferred_node, is_disabled, find_template,
}
use clusteration.Lifecycle.Disk.{ensure_disk_size}
use clusteration.Lifecycle.Destroy.{destroy_existing_vm}

abbrev nat : ℕ → Json
nat n = num (pos n)

-- The cloud-init and hardware settings of a new VM.
unfoldable pub vm_settings : Settings → Vm → String → Fields
unfolding strip
vm_settings settings vm root_password = field "ciuser" (str "root") (
    field "cipassword" (str root_password) (
      field "sshkeys" (str (strip settings.console_ssh_public_key)) (
        field "ipconfig0" (str settings.cloudinit_ipconfig) (
          field "nameserver" (str settings.cloudinit_nameserver) (
            field "cores" (nat vm.cpu)
              (field "memory" (nat vm.memory_mb) (field "onboot" (nat 1) end)))))))

module _ {N : Type 0} (t : Transport N) (settings : Settings) (phase : String) where
  -- `{"operation": f"{phase}:{step}", "node": ..., "target_vmid": ..., "polled_at": ...}`
  at_step : String → ℕ → Exec (Run N) Unit
  at_step step new_vmid = do
    node ← gets (λ r. r.vm.node)
    stamp t (λ now.
        field "operation" (str (phase <> ":" <> step))
          (field "node" (str node) (field "target_vmid" (nat new_vmid) (polled_at now))))

  -- `{"upid": ..., "node": ..., "operation": f"{phase}:{step}", "polled_at": ...}`
  at_task : String → Json → Exec (Run N) Unit
  at_task step upid = do
    node ← gets (λ r. r.vm.node)
    stamp t (λ now.
        field "upid" upid (
          field "node" (str node) (field "operation" (str (phase <> ":" <> step)) (polled_at now))))

  wait_task : Json → Exec (Run N) Unit
  wait_task upid = do node ← gets (λ r. r.vm.node); call (wait_for_task t node upid); pure tt

  -- `vm.ip_address = await proxmox.wait_for_ip(...)` and the commit behind it
  take_ip : ℕ → ℕ → Exec (Run N) Unit
  take_ip new_vmid seconds = do
    node ← gets (λ r. r.vm.node)
    ip ← call (wait_for_ip t node new_vmid seconds)
    set_vm (λ v. record v { ip_address = some ip })
    commit

  -- The node that holds the template, the new VMID and the clone's task.
  start_clone : Template → Exec (Run N) (ℕ × Json)
  start_clone template = do
    stamp t (λ now. field "operation" (str (phase <> ":resolve-template")) (
        field "template" (str template.os)
          (field "template_vmid" (nat template.proxmox_template_vmid) (polled_at now))))
    node ←
        call (
          resolve_template_node t (preferred_node settings template) template.proxmox_template_vmid)
    set_node node
    commit
    stamp t (λ now.
        field "operation" (str (phase <> ":allocate-vmid"))
          (field "node" (str node) (polled_at now)))
    new_vmid ← call (take_next_id t)
    hostname ← gets (λ r. r.vm.hostname)
    upid ← call (request t (clone node template.proxmox_template_vmid new_vmid hostname))
    pure (new_vmid, upid)

  pub record_clone : Template → ℕ → Json → Exec (Run N) Unit
  record_clone template new_vmid upid = do
    node ← gets (λ r. r.vm.node)
    stamp t (λ now. field "upid" upid (
        field "node" (str node) (
          field "operation" (str (phase <> ":clone")) (
            field "template" (str template.os) (
              field "template_vmid" (nat template.proxmox_template_vmid)
                (field "target_vmid" (nat new_vmid) (polled_at now)))))))

  -- The second `try` for the address: `false` where the job ends here, with a warning.
  first_ip : ℕ → Exec (Run N) Bool
  unfolding on_timeout at_step take_ip
  first_ip new_vmid =
      try_except (do at_step "wait-ip" new_vmid; take_ip new_vmid 600; pure true)
        (on_timeout λ msg. do
          set_ssh_status SshStatus.failed
          stamp t (λ now.
              field "warning" (str msg)
                (field "operation" (str (phase <> ":wait-ip")) (polled_at now)))
          commit
          pure false)

  -- A new machine id, a reboot and the address after it; a Proxmox error is passed over.
  make_unique : ℕ → Exec (Run N) Unit
  unfolding on_proxmox at_step at_task wait_task take_ip
  make_unique new_vmid =
      try_except
        (do
          at_step "reset-machine-id" new_vmid
          node ← gets (λ r. r.vm.node)
          call (reset_machine_id t node new_vmid)
          reboot_upid ← call (request t (status_action node new_vmid "reboot"))
          at_task "reboot-uniq" reboot_upid
          wait_task reboot_upid
          at_step "wait-ip-after-reboot" new_vmid
          take_ip new_vmid 300)
        (on_proxmox (λ _ _. pure tt))

  -- What follows the clone's start, from the wait for its task on.
  pub finish_clone : String → ℕ → Json → Exec (Run N) Unit
  unfolding wait_task at_task at_step first_ip make_unique vm_settings
  finish_clone root_password new_vmid upid = do
    wait_task upid
    set_vm (λ v. record v { proxmox_vmid = some new_vmid; status = provisioning })
    commit
    stamp t (λ now.
        field "operation" (str (phase <> ":config-cloudinit"))
          (field "target_vmid" (nat new_vmid) (polled_at now)))
    vm ← gets (λ r. r.vm)
    call (request t (put_config vm.node new_vmid (vm_settings settings vm root_password)))
    ensure_disk_size t phase new_vmid
    node ← gets (λ r. r.vm.node)
    start_upid ← call (request t (status_action node new_vmid "start"))
    at_task "start" start_upid
    wait_task start_upid
    set_status VmStatus.running
    commit
    has_ip ← first_ip new_vmid
    if has_ip then (do make_unique new_vmid; at_step "ready" new_vmid) else pure tt

  unfoldable pub provision_vm_from_template : Template → String → Exec (Run N) Unit
  unfolding start_clone record_clone finish_clone
  provision_vm_from_template template root_password = do
    set_vm (λ v. record v {
      node = preferred_node settings template;
      template = template.os;
      ssh_status = pending;
    })
    commit
    (new_vmid, upid) ← start_clone template
    record_clone template new_vmid upid
    finish_clone root_password new_vmid upid

module _ {N : Type 0} (t : Transport N) (settings : Settings) (templates : List Template) where
  or_missing : Option Template → Exec (Run N) Template
  or_missing none = raise (runtime "template não encontrado")
  or_missing (some template) = pure template

  found_template : String → Exec (Run N) Template
  unfolding find_template or_missing
  found_template os = or_missing (find_template os templates)

  unfoldable pub create_vm_job : String → Exec (Run N) Unit
  unfolding found_template provision_vm_from_template
  create_vm_job root_password = do
    os ← gets (λ r. r.vm.template)
    template ← found_template os
    provision_vm_from_template t settings "create" template root_password

  -- `template_os or vm.template`
  abbrev or_own : Option String → String → String
  or_own none own = own
  or_own (some os) own = if os =ₛ "" then own else os

  unfoldable pub reinstall_vm_job : String → Option String → Exec (Run N) Unit
  unfolding found_template provision_vm_from_template is_disabled preferred_node
  reinstall_vm_job root_password template_os = do
    own ← gets (λ r. r.vm.template)
    template ← found_template (or_own template_os own)
    raise_if (is_disabled template) (runtime "template desabilitado")
    set_vm (λ v. record v { status = deleting; ssh_status = pending })
    commit
    destroy_existing_vm t "reinstall-destroy"
    set_vm (λ v. record v {
      template = template.os;
      proxmox_vmid = none;
      ip_address = none;
      node = preferred_node settings template;
      status = provisioning;
    })
    commit
    provision_vm_from_template t settings "reinstall" template root_password
