-- ===== src/Lifecycle/Disk/Calls.antt =====
-- The check of a disk's size changes nothing but that disk.
use clusteration.Base.{ℕ, ◌≡◌, true, String, Option, none, some}
use clusteration.Base.Exec.Keeps.{Keeps}
use clusteration.Base.Exec.{ProxmoxKind}
use clusteration.Proxmox.{Call, Transport, resize}
use clusteration.Proxmox.Trace.{traced}
use clusteration.Proxmox.Calls.{Sends, is_read, sends_rules}
use clusteration.Proxmox.Resolve.Calls.{vm_disk_size_gb-Sends}
use clusteration.Lifecycle.Rules.{OnNet, net_rules}
use clusteration.Lifecycle.Disk.{keep_larger, resize_failed, grow, settle_size, ensure_disk_size}

module _ {N : Type 0} (t : Transport N) (C : Call → Type 0)
    (reads : (c : Call) → is_read c ≡ true → C c) (phase : String) (vmid : ℕ)
    (own : (node : String) (gb : ℕ) → C (resize node vmid "scsi0" gb)) where
  resize_failed-Sends :
      (gb : ℕ) (current : Option ℕ) (kind : ProxmoxKind) (msg : String)
      → Keeps (OnNet (Sends C)) (resize_failed (traced t) phase vmid gb current kind msg)
  unfolding resize_failed
  resize_failed-Sends gb none kind msg = search net_rules
  resize_failed-Sends gb (some n) kind msg = search net_rules

  grow-Sends :
      (gb : ℕ) (current : Option ℕ)
      → Keeps (OnNet (Sends C)) (grow (traced t) phase vmid gb current)
  unfolding grow
  grow-Sends gb current = search (net_rules, sends_rules, resize_failed-Sends, own) depth 12

  settle_size-Sends :
      (gb : ℕ) (current : Option ℕ)
      → Keeps (OnNet (Sends C)) (settle_size (traced t) phase vmid gb current)
  unfolding settle_size keep_larger
  settle_size-Sends gb none = grow-Sends gb none
  settle_size-Sends gb (some n) = search (net_rules, grow-Sends) depth 12

  pub ensure_disk_size-Sends : Keeps (OnNet (Sends C)) (ensure_disk_size (traced t) phase vmid)
  unfolding ensure_disk_size
  ensure_disk_size-Sends =
      search (net_rules, vm_disk_size_gb-Sends, settle_size-Sends, reads) depth 12
