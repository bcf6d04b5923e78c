-- ===== src/Lifecycle/Destroy/Rows.antt =====
-- The destruction of a VM, and the job that deletes one, stay with the rows of the job.
use clusteration.Base.{ℕ, String, Option, none, some}
use clusteration.Base.Exec.Keeps.{Keeps}
use clusteration.Entities.{Vm, Job}
use clusteration.Proxmox.{Transport}
use clusteration.Lifecycle.Rules.{SameRows, row_rules}
use clusteration.Lifecycle.Destroy.{
  locate, stop_first, destroy_located, destroy_vmid, destroy_existing_vm, delete_vm_job,
}

module _ {N : Type 0} (t : Transport N) (job : Job) (vm : Vm) where
  locate-SameRows : (vmid : ℕ) → Keeps (SameRows job vm) (locate t vmid)
  unfolding locate
  locate-SameRows vmid = search row_rules depth 12

  stop_first-SameRows :
      (operation : String) (vmid : ℕ) → Keeps (SameRows job vm) (stop_first t operation vmid)
  unfolding stop_first
  stop_first-SameRows operation vmid = search row_rules depth 14

  destroy_located-SameRows :
      (operation : String) (vmid : ℕ) → Keeps (SameRows job vm) (destroy_located t operation vmid)
  unfolding destroy_located
  destroy_located-SameRows operation vmid = search (row_rules, stop_first-SameRows) depth 14

  destroy_vmid-SameRows :
      (operation : String) (vmid : Option ℕ)
      → Keeps (SameRows job vm) (destroy_vmid t operation vmid)
  unfolding destroy_vmid
  destroy_vmid-SameRows operation none = search row_rules
  destroy_vmid-SameRows operation (some vmid) =
      search (row_rules, locate-SameRows, destroy_located-SameRows) depth 8

  pub destroy_existing_vm-SameRows :
      (operation : String) → Keeps (SameRows job vm) (destroy_existing_vm t operation)
  unfolding destroy_existing_vm
  destroy_existing_vm-SameRows operation = search (row_rules, destroy_vmid-SameRows)

  pub delete_vm_job-SameRows : Keeps (SameRows job vm) (delete_vm_job t)
  unfolding delete_vm_job
  delete_vm_job-SameRows = search (row_rules, destroy_existing_vm-SameRows) depth 12
