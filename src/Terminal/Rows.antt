-- ===== src/Terminal/Rows.antt =====
-- The SSH check of a VM stays with the rows of the job.
use clusteration.Base.{String, Option, none, some}
use clusteration.Base.Exec.Keeps.{Keeps}
use clusteration.Entities.{Vm, Job}
use clusteration.Proxmox.{Transport}
use clusteration.Lifecycle.Rules.{SameRows, row_rules}
use clusteration.Terminal.{check_at, check_ssh_ready}

module _ {N : Type 0} (t : Transport N) (job : Job) (vm : Vm) where
  check_at-SameRows : (ip : Option String) → Keeps (SameRows job vm) (check_at t ip)
  unfolding check_at
  check_at-SameRows none = search row_rules
  check_at-SameRows (some ip) = search row_rules

  pub check_ssh_ready-SameRows : Keeps (SameRows job vm) (check_ssh_ready t)
  unfolding check_ssh_ready
  check_ssh_ready-SameRows = search (row_rules, check_at-SameRows)
