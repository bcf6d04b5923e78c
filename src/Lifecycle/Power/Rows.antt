-- ===== src/Lifecycle/Power/Rows.antt =====
-- The job that starts, stops or reboots a VM stays with the rows of the job.
use clusteration.Base.{ℕ, String, Option, none, some}
use clusteration.Base.Exec.Keeps.{Keeps}
use clusteration.Entities.{Vm, Job, JobType}
use clusteration.Proxmox.{Transport}
use clusteration.Lifecycle.Rules.{SameRows, row_rules}
use clusteration.Lifecycle.Power.{Endpoint, look_for_ip, act, act_on, power_job}

module _ {N : Type 0} (t : Transport N) (job : Job) (vm : Vm) where
  look_for_ip-SameRows :
      (action : String) (vmid : ℕ) → Keeps (SameRows job vm) (look_for_ip t action vmid)
  unfolding look_for_ip
  look_for_ip-SameRows action vmid = search (row_rules) depth 12

  act-SameRows :
      (operation : JobType) (e : Endpoint) (vmid : ℕ)
      → Keeps (SameRows job vm) (act t operation e vmid)
  unfolding act
  act-SameRows operation e vmid = search (row_rules, look_for_ip-SameRows) depth 20

  act_on-SameRows :
      (operation : JobType) (e : Option Endpoint) (vmid : Option ℕ)
      → Keeps (SameRows job vm) (act_on t operation e vmid)
  unfolding act_on
  act_on-SameRows operation e none = search row_rules
  act_on-SameRows operation none (some vmid) = search row_rules
  act_on-SameRows operation (some e) (some vmid) = act-SameRows operation e vmid

  pub power_job-SameRows : (operation : JobType) → Keeps (SameRows job vm) (power_job t operation)
  unfolding power_job
  power_job-SameRows operation = search (row_rules, act_on-SameRows)
