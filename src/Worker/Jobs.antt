-- ===== src/Worker/Jobs.antt =====
-- The branches of `dispatch` in backend/app/workers/inprocess.py end, and stay with the rows of the job.
use clusteration.Base.{◌≤◌, ◌≢◌, String, Option, none, some, List}
use clusteration.Base.Exec.{Exec, err, out_of_fuel}
use clusteration.Base.Exec.Ends.{Ends}
use clusteration.Base.Exec.Keeps.{Keeps}
use clusteration.Entities.{
  Vm, Job, JobType, create_vm, reinstall_vm, start_vm, stop_vm, reboot_vm, delete_vm,
  ssh_readiness_check, Template,
}
use clusteration.Settings.{Settings}
use clusteration.Proxmox.{Transport, IsMonotonic}
use clusteration.Lifecycle.{Run}
use clusteration.Lifecycle.Rules.{clock_of, job_ends, SameRows, row_rules}
use clusteration.Lifecycle.Provision.Ends.{create_vm_job-Ends, reinstall_vm_job-Ends}
use clusteration.Lifecycle.Provision.Rows.{create_vm_job-SameRows, reinstall_vm_job-SameRows}
use clusteration.Lifecycle.Power.Ends.{power_job-Ends}
use clusteration.Lifecycle.Power.Rows.{power_job-SameRows}
use clusteration.Lifecycle.Destroy.Ends.{delete_vm_job-Ends}
use clusteration.Lifecycle.Destroy.Rows.{delete_vm_job-SameRows}
use clusteration.Terminal.Ends.{check_ssh_ready-Ends}
use clusteration.Terminal.Rows.{check_ssh_ready-SameRows}
use clusteration.Worker.{Payload, with_password, job_body}

module _ {N : Type 0} (t : Transport N) where
  Ends-with_password :
      (password : Option String) (m : String → Exec (Run N) Unit)
      → ((s : String) → Ends (clock_of t) (m s))
      → Ends (clock_of t) (with_password password m)
  Ends-with_password none m k = search job_ends
  Ends-with_password (some s) m k = k s

module _ {N : Type 0} {t : Transport N} (mono : IsMonotonic t) (settings : Settings)
    (templates : List Template) where
  branch-Ends :
      (type : JobType) (p : Payload) → Ends (clock_of t) (job_body t settings templates type p)
  unfolding job_body
  branch-Ends create_vm p = search (Ends-with_password t, create_vm_job-Ends mono)
  branch-Ends reinstall_vm p = search (job_ends, Ends-with_password t, reinstall_vm_job-Ends mono)
  branch-Ends start_vm p = search (power_job-Ends mono)
  branch-Ends stop_vm p = search (power_job-Ends mono)
  branch-Ends reboot_vm p = search (power_job-Ends mono)
  branch-Ends delete_vm p = delete_vm_job-Ends mono
  branch-Ends ssh_readiness_check p = search (job_ends, check_ssh_ready-Ends) depth 6

  -- Every job ends: where the clock does not go back and a sleep takes its time, the polling loops of a
  -- job stop at their deadlines, so the job returns or raises one of the program's exceptions, and the
  -- clock has not gone back.
  pub job_body-Ends :
      (type : JobType) (p : Payload) (r : Run N)
      → ((job_body t settings templates type p r).0 ≢ err out_of_fuel)
        × (clock_of t r ≤ clock_of t (job_body t settings templates type p r).1)
  job_body-Ends type p r = (branch-Ends type p).at r

module _ {N : Type 0} (t : Transport N) (job : Job) (vm : Vm) where
  SameRows-with_password :
      (password : Option String) (m : String → Exec (Run N) Unit)
      → ((s : String) → Keeps (SameRows job vm) (m s))
      → Keeps (SameRows job vm) (with_password password m)
  SameRows-with_password none m k = search row_rules
  SameRows-with_password (some s) m k = k s

module _ {N : Type 0} (t : Transport N) (settings : Settings) (templates : List Template)
    (job : Job) (vm : Vm) where
  pub job_body-SameRows :
      (type : JobType) (p : Payload)
      → Keeps (SameRows job vm) (job_body t settings templates type p)
  unfolding job_body
  job_body-SameRows create_vm p =
      search (SameRows-with_password t job vm, create_vm_job-SameRows t job vm)
  job_body-SameRows reinstall_vm p =
      search (row_rules, SameRows-with_password t job vm, reinstall_vm_job-SameRows t job vm)
  job_body-SameRows start_vm p = search (power_job-SameRows t job vm)
  job_body-SameRows stop_vm p = search (power_job-SameRows t job vm)
  job_body-SameRows reboot_vm p = search (power_job-SameRows t job vm)
  job_body-SameRows delete_vm p = delete_vm_job-SameRows t job vm
  job_body-SameRows ssh_readiness_check p = search (row_rules, check_ssh_ready-SameRows) depth 6
