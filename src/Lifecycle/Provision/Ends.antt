-- ===== src/Lifecycle/Provision/Ends.antt =====
-- The jobs that create and reinstall a VM end.
use clusteration.Base.{ℕ, String, Option, none, some, List}
use clusteration.Base.Json.{Json}
use clusteration.Base.Exec.Ends.{Ends}
use clusteration.Entities.{Template}
use clusteration.Settings.{Settings}
use clusteration.Proxmox.{Transport, IsMonotonic}
use clusteration.Proxmox.Polls.{Ends-request}
use clusteration.Proxmox.Resolve.Ends.{take_next_id-Ends, resolve_template_node-Ends}
use clusteration.Proxmox.Wait.Ends.{wait_for_task-Ends, wait_for_ip-Ends, reset_machine_id-Ends}
use clusteration.Lifecycle.Rules.{clock_of, job_ends}
use clusteration.Lifecycle.Disk.Ends.{ensure_disk_size-Ends}
use clusteration.Lifecycle.Destroy.Ends.{destroy_existing_vm-Ends}
use clusteration.Lifecycle.{find_template}
use clusteration.Lifecycle.Provision.{
  at_step, at_task, wait_task, take_ip, start_clone, record_clone, first_ip, make_unique,
  finish_clone, provision_vm_from_template, or_missing, found_template, create_vm_job,
  reinstall_vm_job,
}

module _ {N : Type 0} {t : Transport N} (mono : IsMonotonic t) (settings : Settings)
    (phase : String) where
  at_step-Ends : (step : String) (vmid : ℕ) → Ends (clock_of t) (at_step t settings phase step vmid)
  unfolding at_step
  at_step-Ends step vmid = search job_ends

  at_task-Ends :
      (step : String) (upid : Json) → Ends (clock_of t) (at_task t settings phase step upid)
  unfolding at_task
  at_task-Ends step upid = search job_ends

  wait_task-Ends : (upid : Json) → Ends (clock_of t) (wait_task t settings phase upid)
  unfolding wait_task
  wait_task-Ends upid = search (job_ends, wait_for_task-Ends mono) depth 8

  take_ip-Ends : (vmid seconds : ℕ) → Ends (clock_of t) (take_ip t settings phase vmid seconds)
  unfolding take_ip
  take_ip-Ends vmid seconds = search (job_ends, wait_for_ip-Ends mono) depth 10

  start_clone-Ends :
      (template : Template) → Ends (clock_of t) (start_clone t settings phase template)
  unfolding start_clone
  start_clone-Ends template =
      search (job_ends, resolve_template_node-Ends mono, take_next_id-Ends, Ends-request mono) depth
        16

  record_clone-Ends :
      (template : Template) (vmid : ℕ) (upid : Json)
      → Ends (clock_of t) (record_clone t settings phase template vmid upid)
  unfolding record_clone
  record_clone-Ends template vmid upid = search job_ends

  first_ip-Ends : (vmid : ℕ) → Ends (clock_of t) (first_ip t settings phase vmid)
  unfolding first_ip
  first_ip-Ends vmid = search (job_ends, at_step-Ends, take_ip-Ends) depth 10

  make_unique-Ends : (vmid : ℕ) → Ends (clock_of t) (make_unique t settings phase vmid)
  unfolding make_unique
  make_unique-Ends vmid =
      search
        (
          job_ends,
          at_step-Ends,
          at_task-Ends,
          wait_task-Ends,
          take_ip-Ends,
          Ends-request mono,
          reset_machine_id-Ends mono,
        )
        depth 16

  finish_clone-Ends :
      (password : String) (vmid : ℕ) (upid : Json)
      → Ends (clock_of t) (finish_clone t settings phase password vmid upid)
  unfolding finish_clone
  finish_clone-Ends password vmid upid =
      search
        (
          job_ends,
          at_step-Ends,
          at_task-Ends,
          wait_task-Ends,
          first_ip-Ends,
          make_unique-Ends,
          Ends-request mono,
          ensure_disk_size-Ends mono,
        )
        depth 24

  provision-Ends :
      (template : Template) (password : String)
      → Ends (clock_of t) (provision_vm_from_template t settings phase template password)
  unfolding provision_vm_from_template
  provision-Ends template password =
      search (job_ends, start_clone-Ends, record_clone-Ends, finish_clone-Ends) depth 10

module _ {N : Type 0} {t : Transport N} (mono : IsMonotonic t) (settings : Settings)
    (templates : List Template) where
  or_missing-Ends :
      (found : Option Template) → Ends (clock_of t) (or_missing t settings templates found)
  unfolding or_missing
  or_missing-Ends none = search job_ends
  or_missing-Ends (some template) = search job_ends

  found_template-Ends : (os : String) → Ends (clock_of t) (found_template t settings templates os)
  unfolding found_template
  found_template-Ends os = or_missing-Ends (find_template os templates)

  pub create_vm_job-Ends :
      (password : String) → Ends (clock_of t) (create_vm_job t settings templates password)
  unfolding create_vm_job
  create_vm_job-Ends password = search (job_ends, found_template-Ends, provision-Ends mono) depth 8

  pub reinstall_vm_job-Ends :
      (password : String) (os : Option String)
      → Ends (clock_of t) (reinstall_vm_job t settings templates password os)
  unfolding reinstall_vm_job
  reinstall_vm_job-Ends password os =
      search (job_ends, found_template-Ends, destroy_existing_vm-Ends mono, provision-Ends mono)
        depth 14
