-- ===== src/Lifecycle/Provision/Rows.antt =====
-- The jobs that create and reinstall a VM stay with the rows of the job.
use clusteration.Base.{ℕ, String, Option, none, some, List}
use clusteration.Base.Json.{Json}
use clusteration.Base.Exec.Keeps.{Keeps}
use clusteration.Entities.{Vm, Job, Template}
use clusteration.Settings.{Settings}
use clusteration.Proxmox.{Transport}
use clusteration.Lifecycle.Rules.{SameRows, row_rules}
use clusteration.Lifecycle.Disk.Rows.{ensure_disk_size-SameRows}
use clusteration.Lifecycle.Destroy.Rows.{destroy_existing_vm-SameRows}
use clusteration.Lifecycle.{find_template}
use clusteration.Lifecycle.Provision.{
  at_step, at_task, wait_task, take_ip, start_clone, record_clone, first_ip, make_unique,
  finish_clone, provision_vm_from_template, or_missing, found_template, create_vm_job,
  reinstall_vm_job,
}

module _ {N : Type 0} (t : Transport N) (job : Job) (vm : Vm) (settings : Settings)
    (phase : String) where
  at_step-SameRows :
      (step : String) (vmid : ℕ) → Keeps (SameRows job vm) (at_step t settings phase step vmid)
  unfolding at_step
  at_step-SameRows step vmid = search row_rules

  at_task-SameRows :
      (step : String) (upid : Json) → Keeps (SameRows job vm) (at_task t settings phase step upid)
  unfolding at_task
  at_task-SameRows step upid = search row_rules

  wait_task-SameRows : (upid : Json) → Keeps (SameRows job vm) (wait_task t settings phase upid)
  unfolding wait_task
  wait_task-SameRows upid = search (row_rules) depth 8

  take_ip-SameRows :
      (vmid seconds : ℕ) → Keeps (SameRows job vm) (take_ip t settings phase vmid seconds)
  unfolding take_ip
  take_ip-SameRows vmid seconds = search (row_rules) depth 10

  start_clone-SameRows :
      (template : Template) → Keeps (SameRows job vm) (start_clone t settings phase template)
  unfolding start_clone
  start_clone-SameRows template = search (row_rules) depth 16

  record_clone-SameRows :
      (template : Template) (vmid : ℕ) (upid : Json)
      → Keeps (SameRows job vm) (record_clone t settings phase template vmid upid)
  unfolding record_clone
  record_clone-SameRows template vmid upid = search row_rules

  first_ip-SameRows : (vmid : ℕ) → Keeps (SameRows job vm) (first_ip t settings phase vmid)
  unfolding first_ip
  first_ip-SameRows vmid = search (row_rules, at_step-SameRows, take_ip-SameRows) depth 10

  make_unique-SameRows : (vmid : ℕ) → Keeps (SameRows job vm) (make_unique t settings phase vmid)
  unfolding make_unique
  make_unique-SameRows vmid =
      search (row_rules, at_step-SameRows, at_task-SameRows, wait_task-SameRows, take_ip-SameRows)
        depth 16

  finish_clone-SameRows :
      (password : String) (vmid : ℕ) (upid : Json)
      → Keeps (SameRows job vm) (finish_clone t settings phase password vmid upid)
  unfolding finish_clone
  finish_clone-SameRows password vmid upid =
      search
        (
          row_rules,
          at_step-SameRows,
          at_task-SameRows,
          wait_task-SameRows,
          first_ip-SameRows,
          make_unique-SameRows,
          ensure_disk_size-SameRows t job vm,
        )
        depth 24

  provision-SameRows :
      (template : Template) (password : String)
      → Keeps (SameRows job vm) (provision_vm_from_template t settings phase template password)
  unfolding provision_vm_from_template
  provision-SameRows template password =
      search (row_rules, start_clone-SameRows, record_clone-SameRows, finish_clone-SameRows) depth
        10

module _ {N : Type 0} (t : Transport N) (job : Job) (vm : Vm) (settings : Settings)
    (templates : List Template) where
  or_missing-SameRows :
      (found : Option Template) → Keeps (SameRows job vm) (or_missing t settings templates found)
  unfolding or_missing
  or_missing-SameRows none = search row_rules
  or_missing-SameRows (some template) = search row_rules

  found_template-SameRows :
      (os : String) → Keeps (SameRows job vm) (found_template t settings templates os)
  unfolding found_template
  found_template-SameRows os = or_missing-SameRows (find_template os templates)

  pub create_vm_job-SameRows :
      (password : String) → Keeps (SameRows job vm) (create_vm_job t settings templates password)
  unfolding create_vm_job
  create_vm_job-SameRows password =
      search (row_rules, found_template-SameRows, provision-SameRows t job vm) depth 8

  pub reinstall_vm_job-SameRows :
      (password : String) (os : Option String)
      → Keeps (SameRows job vm) (reinstall_vm_job t settings templates password os)
  unfolding reinstall_vm_job
  reinstall_vm_job-SameRows password os =
      search
        (
          row_rules,
          found_template-SameRows,
          destroy_existing_vm-SameRows t job vm,
          provision-SameRows t job vm,
        )
        depth 14
