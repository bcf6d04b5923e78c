-- ===== src/Lifecycle/Power/Ends.antt =====
-- The job that starts, stops or reboots a VM ends.
use clusteration.Base.{ℕ, String, Option, none, some}
use clusteration.Base.Exec.Ends.{Ends}
use clusteration.Entities.{JobType}
use clusteration.Proxmox.{Transport, IsMonotonic}
use clusteration.Proxmox.Polls.{Ends-request}
use clusteration.Proxmox.Resolve.Ends.{resolve_vm_node-Ends}
use clusteration.Proxmox.Wait.Ends.{wait_for_task-Ends, wait_for_ip-Ends}
use clusteration.Lifecycle.Rules.{clock_of, job_ends}
use clusteration.Lifecycle.Power.{Endpoint, look_for_ip, act, act_on, power_job}

module _ {N : Type 0} {t : Transport N} (mono : IsMonotonic t) where
  look_for_ip-Ends : (action : String) (vmid : ℕ) → Ends (clock_of t) (look_for_ip t action vmid)
  unfolding look_for_ip
  look_for_ip-Ends action vmid = search (job_ends, wait_for_ip-Ends mono) depth 12

  act-Ends :
      (operation : JobType) (e : Endpoint) (vmid : ℕ) → Ends (clock_of t) (act t operation e vmid)
  unfolding act
  act-Ends operation e vmid =
      search
        (
          job_ends,
          resolve_vm_node-Ends mono,
          Ends-request mono,
          wait_for_task-Ends mono,
          look_for_ip-Ends,
        )
        depth 20

  act_on-Ends :
      (operation : JobType) (e : Option Endpoint) (vmid : Option ℕ)
      → Ends (clock_of t) (act_on t operation e vmid)
  unfolding act_on
  act_on-Ends operation e none = search job_ends
  act_on-Ends operation none (some vmid) = search job_ends
  act_on-Ends operation (some e) (some vmid) = act-Ends operation e vmid

  pub power_job-Ends : (operation : JobType) → Ends (clock_of t) (power_job t operation)
  unfolding power_job
  power_job-Ends operation = search (job_ends, act_on-Ends)
