-- ===== src/Lifecycle/Destroy.antt =====
-- `destroy_existing_vm` and `delete_vm_job` of backend/app/services/lifecycle.py.
pub mod Ends
pub mod Rows
pub mod Calls
pub mod Outcome
use clusteration.Base.{ℕ, String, ◌<>◌, Bool, true, false, Option, none, some, ◌=ₛ◌, if◌then◌else◌}
use clusteration.Base.Text.{contains}
use clusteration.Base.Json.{Json, str, obj, field, get, get_in}
use clusteration.Base.Exec.{
  Exc, proxmox, ProxmoxKind, Exec, pure, raise, gets, try_except, on_proxmox, ◌>>=◌, ◌>>◌,
}
use clusteration.Entities.{VmStatus, Vm, deleting, deleted}
use clusteration.Proxmox.{Transport, Call, status_current, status_action, destroy}
use clusteration.Proxmox.Request.{request}
use clusteration.Proxmox.Resolve.{resolve_vm_node}
use clusteration.Proxmox.Wait.{wait_for_task}
use clusteration.Lifecycle.{Run, commit, call, stamp, set_vm, set_status, set_node, polled_at}

-- `isinstance(current, dict) and current.get("status") == "running"`
is_up : Json → Bool
unfolding get
is_up (obj d) = elim (get "status" d) [ str s ↦ s =ₛ "running" | _ ↦ false ]
is_up _ = false

module _ {N : Type 0} (t : Transport N) where
  -- The first `try`: whether Proxmox still has the VM.
  locate : ℕ → Exec (Run N) Bool
  unfolding on_proxmox contains
  locate vmid =
      try_except
        (do
          preferred ← gets (λ r. r.vm.node)
          node ← call (resolve_vm_node t preferred vmid)
          set_node node
          commit
          pure true)
        (on_proxmox λ kind msg.
          if contains msg "não encontrado" then pure false else raise (proxmox kind msg))

  -- The second `try`: a VM that runs is stopped first, as far as that goes.
  stop_first : String → ℕ → Exec (Run N) Unit
  unfolding is_up on_proxmox
  stop_first operation vmid =
      try_except
        (do
          node ← gets (λ r. r.vm.node)
          current ← call (request t (status_current node vmid))
          if is_up current
              then (do
                stop_upid ← call (request t (status_action node vmid "stop"))
                stamp t (λ now. field "upid" stop_upid (
                    field "node" (str node)
                      (field "operation" (str (operation <> ":stop")) (polled_at now))))
                call (wait_for_task t node stop_upid)
                pure tt)
              else pure tt)
        (on_proxmox (λ _ _. pure tt))

  destroy_located : String → ℕ → Exec (Run N) Unit
  unfolding stop_first
  destroy_located operation vmid = do
    stop_first operation vmid
    node ← gets (λ r. r.vm.node)
    upid ← call (request t (destroy node vmid))
    stamp t (λ now.
        field "upid" upid
          (field "node" (str node) (field "operation" (str operation) (polled_at now))))
    call (wait_for_task t node upid)
    pure tt

  destroy_vmid : String → Option ℕ → Exec (Run N) Unit
  unfolding locate destroy_located
  destroy_vmid operation none = pure tt
  destroy_vmid operation (some vmid) = do
    found ← locate vmid
    if found then destroy_located operation vmid else pure tt

  unfoldable pub destroy_existing_vm : String → Exec (Run N) Unit
  unfolding destroy_vmid
  destroy_existing_vm operation = do
    vmid ← gets (λ r. r.vm.proxmox_vmid)
    destroy_vmid operation vmid

  -- Without a VMID `destroy_existing_vm` would return at once too.
  unfoldable pub delete_vm_job : Exec (Run N) Unit
  unfolding destroy_existing_vm
  delete_vm_job = do
    set_status deleting
    commit
    destroy_existing_vm "delete"
    now ← gets (λ r. t.utcnow r.net)
    set_vm (λ v. record v { status = deleted; deleted_at = some now })
    commit
