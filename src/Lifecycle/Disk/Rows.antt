-- ===== src/Lifecycle/Disk/Rows.antt =====
-- `ensure_disk_size` stays with the rows of the job.
use clusteration.Base.{ℕ, String, Option, none, some}
use clusteration.Base.Exec.Keeps.{Keeps}
use clusteration.Entities.{Vm, Job}
use clusteration.Proxmox.{Transport}
use clusteration.Lifecycle.Rules.{SameRows, row_rules}
use clusteration.Base.Exec.{ProxmoxKind}
use clusteration.Lifecycle.Disk.{resize_failed, grow, settle_size, ensure_disk_size}

module _ {N : Type 0} (t : Transport N) (job : Job) (vm : Vm) (phase : String) (vmid : ℕ) where
  resize_failed-SameRows :
      (requested : ℕ) (current : Option ℕ) (k : ProxmoxKind) (msg : String)
      → Keeps (SameRows job vm) (resize_failed t phase vmid requested current k msg)
  unfolding resize_failed
  resize_failed-SameRows requested (some gb) k msg = search row_rules
  resize_failed-SameRows requested none k msg = search row_rules

  grow-SameRows :
      (requested : ℕ) (current : Option ℕ)
      → Keeps (SameRows job vm) (grow t phase vmid requested current)
  unfolding grow
  grow-SameRows requested current = search (row_rules, resize_failed-SameRows) depth 10

  settle_size-SameRows :
      (requested : ℕ) (current : Option ℕ)
      → Keeps (SameRows job vm) (settle_size t phase vmid requested current)
  unfolding settle_size
  settle_size-SameRows requested none = grow-SameRows requested none
  settle_size-SameRows requested (some gb) = search (row_rules, grow-SameRows) depth 8

  pub ensure_disk_size-SameRows : Keeps (SameRows job vm) (ensure_disk_size t phase vmid)
  unfolding ensure_disk_size
  ensure_disk_size-SameRows = search (row_rules, settle_size-SameRows) depth 10
