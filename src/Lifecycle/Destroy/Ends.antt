-- ===== src/Lifecycle/Destroy/Ends.antt =====
-- The destruction of a VM, and the job that deletes one, end.
use clusteration.Base.{ℕ, String, Option, none, some}
use clusteration.Base.Exec.Ends.{Ends}
use clusteration.Proxmox.{Transport, IsMonotonic}
use clusteration.Proxmox.Polls.{Ends-request}
use clusteration.Proxmox.Resolve.Ends.{resolve_vm_node-Ends}
use clusteration.Proxmox.Wait.Ends.{wait_for_task-Ends}
use clusteration.Lifecycle.Rules.{clock_of, job_ends}
use clusteration.Lifecycle.Destroy.{
  locate, stop_first, destroy_located, destroy_vmid, destroy_existing_vm, delete_vm_job,
}

module _ {N : Type 0} {t : Transport N} (mono : IsMonotonic t) where
  locate-Ends : (vmid : ℕ) → Ends (clock_of t) (locate t vmid)
  unfolding locate
  locate-Ends vmid = search (job_ends, resolve_vm_node-Ends mono) depth 12

  stop_first-Ends :
      (operation : String) (vmid : ℕ) → Ends (clock_of t) (stop_first t operation vmid)
  unfolding stop_first
  stop_first-Ends operation vmid =
      search (job_ends, Ends-request mono, wait_for_task-Ends mono) depth 14

  destroy_located-Ends :
      (operation : String) (vmid : ℕ) → Ends (clock_of t) (destroy_located t operation vmid)
  unfolding destroy_located
  destroy_located-Ends operation vmid =
      search (job_ends, Ends-request mono, wait_for_task-Ends mono, stop_first-Ends) depth 14

  destroy_vmid-Ends :
      (operation : String) (vmid : Option ℕ) → Ends (clock_of t) (destroy_vmid t operation vmid)
  unfolding destroy_vmid
  destroy_vmid-Ends operation none = search job_ends
  destroy_vmid-Ends operation (some vmid) =
      search (job_ends, locate-Ends, destroy_located-Ends) depth 8

  pub destroy_existing_vm-Ends :
      (operation : String) → Ends (clock_of t) (destroy_existing_vm t operation)
  unfolding destroy_existing_vm
  destroy_existing_vm-Ends operation = search (job_ends, destroy_vmid-Ends)

  pub delete_vm_job-Ends : Ends (clock_of t) (delete_vm_job t)
  unfolding delete_vm_job
  delete_vm_job-Ends = search (job_ends, destroy_existing_vm-Ends) depth 12
