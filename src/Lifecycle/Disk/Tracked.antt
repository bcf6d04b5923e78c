-- ===== src/Lifecycle/Disk/Tracked.antt =====
-- The check of a disk's size leaves the note of the VMID.
use clusteration.Base.{ℕ, String, Option, none, some}
use clusteration.Base.Exec.Keeps.{Keeps}
use clusteration.Base.Exec.{ProxmoxKind}
use clusteration.Proxmox.{Transport}
use clusteration.Lifecycle.Tracked.{Tracked, tracked_rules}
use clusteration.Lifecycle.Disk.{keep_larger, resize_failed, grow, settle_size, ensure_disk_size}

module _ {N : Type 0} (t : Transport N) (phase : String) (vmid : ℕ) where
  resize_failed-Tracked :
      (gb : ℕ) (current : Option ℕ) (kind : ProxmoxKind) (msg : String)
      → Keeps (Tracked vmid) (resize_failed t phase vmid gb current kind msg)
  unfolding resize_failed
  resize_failed-Tracked gb none kind msg = search tracked_rules depth 12
  resize_failed-Tracked gb (some n) kind msg = search tracked_rules

  grow-Tracked : (gb : ℕ) (current : Option ℕ) → Keeps (Tracked vmid) (grow t phase vmid gb current)
  unfolding grow
  grow-Tracked gb current = search (tracked_rules, resize_failed-Tracked) depth 14

  settle_size-Tracked :
      (gb : ℕ) (current : Option ℕ) → Keeps (Tracked vmid) (settle_size t phase vmid gb current)
  unfolding settle_size keep_larger
  settle_size-Tracked gb none = grow-Tracked gb none
  settle_size-Tracked gb (some n) = search (tracked_rules, grow-Tracked) depth 16

  pub ensure_disk_size-Tracked : Keeps (Tracked vmid) (ensure_disk_size t phase vmid)
  unfolding ensure_disk_size
  ensure_disk_size-Tracked = search (tracked_rules, settle_size-Tracked) depth 14
