-- ===== src/Lifecycle/Disk/Ends.antt =====
-- `ensure_disk_size` ends.
use clusteration.Base.{ℕ, String, Option, none, some}
use clusteration.Base.Exec.Ends.{Ends}
use clusteration.Proxmox.{Transport, IsMonotonic}
use clusteration.Proxmox.Polls.{Ends-request}
use clusteration.Proxmox.Resolve.Ends.{vm_disk_size_gb-Ends}
use clusteration.Lifecycle.Rules.{clock_of, job_ends}
use clusteration.Base.Exec.{ProxmoxKind}
use clusteration.Lifecycle.Disk.{resize_failed, grow, settle_size, ensure_disk_size}

module _ {N : Type 0} {t : Transport N} (mono : IsMonotonic t) (phase : String) (vmid : ℕ) where
  resize_failed-Ends :
      (requested : ℕ) (current : Option ℕ) (k : ProxmoxKind) (msg : String)
      → Ends (clock_of t) (resize_failed t phase vmid requested current k msg)
  unfolding resize_failed
  resize_failed-Ends requested (some gb) k msg = search job_ends
  resize_failed-Ends requested none k msg = search job_ends

  grow-Ends :
      (requested : ℕ) (current : Option ℕ) → Ends (clock_of t) (grow t phase vmid requested current)
  unfolding grow
  grow-Ends requested current = search (job_ends, Ends-request mono, resize_failed-Ends) depth 10

  settle_size-Ends :
      (requested : ℕ) (current : Option ℕ)
      → Ends (clock_of t) (settle_size t phase vmid requested current)
  unfolding settle_size
  settle_size-Ends requested none = grow-Ends requested none
  settle_size-Ends requested (some gb) = search (job_ends, grow-Ends) depth 8

  pub ensure_disk_size-Ends : Ends (clock_of t) (ensure_disk_size t phase vmid)
  unfolding ensure_disk_size
  ensure_disk_size-Ends = search (job_ends, vm_disk_size_gb-Ends mono, settle_size-Ends) depth 10
