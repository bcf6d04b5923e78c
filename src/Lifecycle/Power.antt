-- ===== src/Lifecycle/Power.antt =====
-- `power_job` of backend/app/services/lifecycle.py.
pub mod Ends
pub mod Rows
pub mod Calls
pub mod Outcome
use clusteration.Base.{ℕ, String, ◌<>◌, Bool, true, false, Option, none, some, if◌then◌else◌}
use clusteration.Base.Json.{str, field, end}
use clusteration.Base.Exec.{Exc, runtime, other, Exec, pure, raise, gets, try_except, ◌>>=◌, ◌>>◌}
use clusteration.Entities.{
  JobType, start_vm, stop_vm, reboot_vm, VmStatus, stopped, starting, stopping, rebooting,
  SshStatus, pending,
}
use clusteration.Proxmox.{Transport, status_action}
use clusteration.Proxmox.Request.{request}
use clusteration.Proxmox.Resolve.{resolve_vm_node}
use clusteration.Proxmox.Wait.{wait_for_task, wait_for_ip}
use clusteration.Lifecycle.{
  Run, commit, call, stamp, set_job_meta, set_vm, set_status, set_ssh_status, set_node, on_timeout,
  polled_at,
}

-- `endpoints`, by the operation: the action, the status while it runs, and the status behind it.
pub record Endpoint : Type 0 where
  pub action : String
  pub transient : VmStatus
  pub final : VmStatus

unfoldable pub endpoint_of : JobType → Option Endpoint
endpoint_of start_vm =
    some (record { action = "start"; transient = starting; final = VmStatus.running })
endpoint_of stop_vm = some (record { action = "shutdown"; transient = stopping; final = stopped })
endpoint_of reboot_vm =
    some (record { action = "reboot"; transient = rebooting; final = VmStatus.running })
endpoint_of _ = none

abbrev pub is_start : JobType → Bool
is_start start_vm = true
is_start _ = false

-- `operation in (start_vm, reboot_vm)`
abbrev pub comes_up : JobType → Bool
comes_up start_vm = true
comes_up reboot_vm = true
comes_up _ = false

module _ {N : Type 0} (t : Transport N) where
  -- The address of a VM that has come up, or a warning.
  look_for_ip : String → ℕ → Exec (Run N) Unit
  unfolding on_timeout
  look_for_ip action vmid =
      try_except
        (do
          node ← gets (λ r. r.vm.node)
          ip ← call (wait_for_ip t node vmid 300)
          set_vm (λ v. record v { ip_address = some ip }))
        (on_timeout λ msg. do
          set_ssh_status SshStatus.failed
          set_job_meta
              (field "warning" (str msg) (field "operation" (str (action <> ":wait-ip")) end)))

  act : JobType → Endpoint → ℕ → Exec (Run N) Unit
  unfolding look_for_ip
  act operation e vmid = do
    set_status e.transient
    if is_start operation then set_ssh_status pending else pure tt
    commit
    preferred ← gets (λ r. r.vm.node)
    node ← call (resolve_vm_node t preferred vmid)
    set_node node
    upid ← call (request t (status_action node vmid e.action))
    stamp t (λ now.
        field "upid" upid
          (field "node" (str node) (field "operation" (str e.action) (polled_at now))))
    call (wait_for_task t node upid)
    set_status e.final
    if comes_up operation then look_for_ip e.action vmid else pure tt
    commit

  act_on : JobType → Option Endpoint → Option ℕ → Exec (Run N) Unit
  unfolding act
  act_on operation e none = raise (runtime "VM ainda não possui VMID Proxmox")
  act_on operation none (some vmid) = raise (other "KeyError")
  act_on operation (some e) (some vmid) = act operation e vmid

  unfoldable pub power_job : JobType → Exec (Run N) Unit
  unfolding act_on endpoint_of
  power_job operation = do
    vmid ← gets (λ r. r.vm.proxmox_vmid)
    act_on operation (endpoint_of operation) vmid
