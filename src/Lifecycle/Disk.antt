-- ===== src/Lifecycle/Disk.antt =====
-- `ensure_disk_size` of backend/app/services/lifecycle.py.
pub mod Ends
pub mod Rows
pub mod Calls
pub mod Tracked
pub mod Growth
use clusteration.Base.{
  ℕ, String, ◌<>◌, Option, none, some, ltb, leb, if◌then◌else◌, Bool, true, false,
}
use clusteration.Base.Json.{Json, null, str, num, pos, field, end}
use clusteration.Base.Exec.{
  Exc, proxmox, ProxmoxKind, Exec, pure, raise, gets, try_except, on_proxmox, ◌>>=◌, ◌>>◌,
}
use clusteration.Entities.{Vm}
use clusteration.Proxmox.{Transport, resize}
use clusteration.Proxmox.Request.{request}
use clusteration.Proxmox.Resolve.{vm_disk_size_gb}
use clusteration.Lifecycle.{Run, call, stamp, set_vm, polled_at}

abbrev nat : ℕ → Json
nat n = num (pos n)

-- A size that may be unknown, as JSON.
abbrev pub size_or_null : Option ℕ → Json
size_or_null (some n) = nat n
size_or_null none = null

module _ {N : Type 0} (t : Transport N) (phase : String) (vmid : ℕ) where
  -- The disk is at least as large as requested, and is never made smaller.
  keep_larger : ℕ → ℕ → Exec (Run N) Unit
  keep_larger requested_gb current_gb =
      if ltb requested_gb current_gb
      then (do
        set_vm (λ v. record v { disk_gb = current_gb })
        stamp t (λ now. field "operation" (str (phase <> ":resize-skip")) (
            field "disk_requested_gb" (nat requested_gb) (
              field "disk_effective_gb" (nat current_gb) (
                field "warning"
                  (str "template já possui disco maior; resize para baixo foi ignorado")
                  (polled_at now))))))
      else pure tt

  -- A resize that fails is fatal only where the current size is known.
  resize_failed : ℕ → Option ℕ → ProxmoxKind → String → Exec (Run N) Bool
  resize_failed requested_gb (some _) kind msg = raise (proxmox kind msg)
  resize_failed requested_gb none kind msg = do
    stamp t (λ now. field "operation" (str (phase <> ":resize-skip")) (
        field "disk_requested_gb" (nat requested_gb) (
          field "warning"
            (str (
              "não foi possível confirmar/redimensionar o disco pelo token; "
              <> "VM continuará com o disco do template: " <> msg))
            (polled_at now))))
    pure false

  grow : ℕ → Option ℕ → Exec (Run N) Unit
  unfolding resize_failed on_proxmox
  grow requested_gb current_gb = do
    node ← gets (λ r. r.vm.node)
    resized ←
        try_except (do call (request t (resize node vmid "scsi0" requested_gb)); pure true)
          (on_proxmox (resize_failed requested_gb current_gb))
    if resized
        then stamp t (λ now. field "operation" (str (phase <> ":resize")) (
            field "disk_requested_gb" (nat requested_gb)
              (field "disk_previous_gb" (size_or_null current_gb) (polled_at now))))
        else pure tt

  settle_size : ℕ → Option ℕ → Exec (Run N) Unit
  unfolding keep_larger grow
  settle_size requested_gb none = grow requested_gb none
  settle_size requested_gb (some current_gb) =
      if leb requested_gb current_gb
      then keep_larger requested_gb current_gb
      else grow requested_gb (some current_gb)

  unfoldable pub ensure_disk_size : Exec (Run N) Unit
  unfolding settle_size
  ensure_disk_size = do
    stamp t (λ now.
        field "operation" (str (phase <> ":resize-check"))
          (field "target_vmid" (nat vmid) (polled_at now)))
    node ← gets (λ r. r.vm.node)
    current_gb ← call (vm_disk_size_gb t node vmid)
    requested_gb ← gets (λ r. r.vm.disk_gb)
    settle_size requested_gb current_gb
