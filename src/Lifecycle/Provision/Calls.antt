-- ===== src/Lifecycle/Provision/Calls.antt =====
-- The provisioning of a VM changes no VM but the one that it clones.
use clusteration.Base.{ℕ, ◌≡◌, true, refl, ◌⊎◌, inl, inr, String, arith}
use clusteration.Base.Json.{Json}
use clusteration.Base.Exec.Keeps.{Keeps}
use clusteration.Entities.{Template}
use clusteration.Settings.{Settings}
use clusteration.Proxmox.{Call, Transport, clone, put_config, resize, status_action, agent_exec}
use clusteration.Proxmox.Trace.{Traced, traced}
use clusteration.Proxmox.Calls.{Sends, is_read, sends_rules}
use clusteration.Proxmox.Wait.{reset_script, reset_machine_id}
use clusteration.Proxmox.Wait.Calls.{wait_for_task-Sends, wait_for_ip-Sends, reset_machine_id-Sends}
use clusteration.Lifecycle.{Run}
use clusteration.Lifecycle.Rules.{OnNet, net_rules}
use clusteration.Lifecycle.Disk.{ensure_disk_size}
use clusteration.Lifecycle.Disk.Calls.{ensure_disk_size-Sends}
use clusteration.Lifecycle.Provision.{
  at_step, at_task, wait_task, take_ip, record_clone, first_ip, make_unique, finish_clone,
}

-- A request that only reads, or one that creates, configures, resizes, starts, reboots or enters the
-- VM with this VMID.
abbrev pub IsCloneCall : ℕ → Call → Type 0
IsCloneCall v (clone node template newid name) = newid ≡ v
IsCloneCall v (put_config node vmid config) = vmid ≡ v
IsCloneCall v (resize node vmid disk gb) = vmid ≡ v
IsCloneCall v (status_action node vmid action) =
    (vmid ≡ v) × ((action ≡ "start") ⊎ (action ≡ "reboot"))
IsCloneCall v (agent_exec node vmid script) = (vmid ≡ v) × (script ≡ reset_script)
IsCloneCall v c = is_read c ≡ true

reads-IsCloneCall : (v : ℕ) (c : Call) → is_read c ≡ true → IsCloneCall v c
reads-IsCloneCall v c h = ground arith

-- A request of an earlier phase, or one for the clone.
abbrev pub IsAllowed : (Call → Type 0) → ℕ → Call → Type 0
IsAllowed Earlier v c = Earlier c ⊎ IsCloneCall v c

reads-IsAllowed :
    (Earlier : Call → Type 0) (v : ℕ) (c : Call) → is_read c ≡ true → IsAllowed Earlier v c
reads-IsAllowed Earlier v c h = inr (reads-IsCloneCall v c h)

abbrev pub Only : {N : Type 0} → (Call → Type 0) → ℕ → Run (Traced N) → Type 0
Only Earlier v = OnNet (Sends (IsAllowed Earlier v))

module _ {N : Type 0} (t : Transport N) (settings : Settings) (phase : String)
    (Earlier : Call → Type 0) (v : ℕ) where
  at_step-Only : (step : String) → Keeps (Only Earlier v) (at_step (traced t) settings phase step v)
  unfolding at_step
  at_step-Only step = search net_rules

  at_task-Only :
      (step : String) (upid : Json)
      → Keeps (Only Earlier v) (at_task (traced t) settings phase step upid)
  unfolding at_task
  at_task-Only step upid = search net_rules

  wait_task-Only : (upid : Json) → Keeps (Only Earlier v) (wait_task (traced t) settings phase upid)
  unfolding wait_task
  wait_task-Only upid = search (net_rules, wait_for_task-Sends, reads-IsAllowed) depth 12

  take_ip-Only :
      (seconds : ℕ) → Keeps (Only Earlier v) (take_ip (traced t) settings phase v seconds)
  unfolding take_ip
  take_ip-Only seconds = search (net_rules, wait_for_ip-Sends, reads-IsAllowed) depth 12

  pub record_clone-Only :
      (template : Template) (upid : Json)
      → Keeps (Only Earlier v) (record_clone (traced t) settings phase template v upid)
  unfolding record_clone
  record_clone-Only template upid = search net_rules

  first_ip-Only : Keeps (Only Earlier v) (first_ip (traced t) settings phase v)
  unfolding first_ip
  first_ip-Only = search (net_rules, at_step-Only, take_ip-Only) depth 12

  machine_id-Only :
      (node : String) → Keeps (Sends (IsAllowed Earlier v)) (reset_machine_id (traced t) node v)
  machine_id-Only node =
      reset_machine_id-Sends t (IsAllowed Earlier v) (reads-IsAllowed Earlier v) node v
        (inr (refl, refl))

  make_unique-Only : Keeps (Only Earlier v) (make_unique (traced t) settings phase v)
  unfolding make_unique
  make_unique-Only =
      search
        (
          net_rules, sends_rules, at_step-Only, at_task-Only, wait_task-Only, take_ip-Only,
          machine_id-Only, inl, inr,
        )
        depth 18

  disk-Only : Keeps (Only Earlier v) (ensure_disk_size (traced t) phase v)
  disk-Only =
      ensure_disk_size-Sends t (IsAllowed Earlier v) (reads-IsAllowed Earlier v) phase v
        (λ node gb. inr refl)

  pub finish_clone-Only :
      (password : String) (upid : Json)
      → Keeps (Only Earlier v) (finish_clone (traced t) settings phase password v upid)
  unfolding finish_clone
  finish_clone-Only password upid =
      search
        (
          net_rules, sends_rules, at_step-Only, at_task-Only, wait_task-Only, first_ip-Only,
          make_unique-Only, disk-Only, inl, inr,
        )
        depth 26
