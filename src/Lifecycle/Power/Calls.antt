-- ===== src/Lifecycle/Power/Calls.antt =====
-- The job that starts, stops or reboots a VM acts on no other VM.
use clusteration.Base.{ℕ, ◌≡◌, true, refl, ◌⊎◌, inl, inr, String, Option, none, some, All}
use clusteration.Base.Exec.Keeps.{Keeps}
use clusteration.Entities.{JobType}
use clusteration.Proxmox.{Call, Transport, status_action}
use clusteration.Proxmox.Trace.{Traced, traced}
use clusteration.Proxmox.Calls.{Sends, is_read, sends_rules}
use clusteration.Proxmox.Resolve.Calls.{resolve_vm_node-Sends}
use clusteration.Proxmox.Wait.Calls.{wait_for_task-Sends, wait_for_ip-Sends}
use clusteration.Lifecycle.{Run}
use clusteration.Lifecycle.Rules.{Bound, bound_rules, Bound-with_vmid}
use clusteration.Lifecycle.Power.{Endpoint, endpoint_of, look_for_ip, act, act_on, power_job}

module _ {N : Type 0} (t : Transport N) (C : Call → Type 0)
    (reads : (c : Call) → is_read c ≡ true → C c) (vmid : ℕ) where
  look_for_ip-Sends :
      (action : String) → Keeps (Bound vmid (Sends C)) (look_for_ip (traced t) action vmid)
  unfolding look_for_ip
  look_for_ip-Sends action = search (bound_rules, wait_for_ip-Sends, reads) depth 12

  act-Sends :
      (operation : JobType) (e : Endpoint)
      → ((node : String) → C (status_action node vmid e.action))
      → Keeps (Bound vmid (Sends C)) (act (traced t) operation e vmid)
  unfolding act
  act-Sends operation e own =
      search
        (
          bound_rules, sends_rules, resolve_vm_node-Sends, wait_for_task-Sends, look_for_ip-Sends,
          own, reads,
        )
        depth 20

  act_on-Sends :
      (operation : JobType) (e : Option Endpoint)
      → ((x : Endpoint) → e ≡ some x → (node : String) → C (status_action node vmid x.action))
      → Keeps (Bound vmid (Sends C)) (act_on (traced t) operation e (some vmid))
  unfolding act_on
  act_on-Sends operation none own = search bound_rules
  act_on-Sends operation (some e) own = act-Sends operation e (own e refl)

-- A request that only reads, or the action of the operation on this VM.
abbrev pub IsPowerCall : JobType → ℕ → Call → Type 0
IsPowerCall operation vmid c =
    (is_read c ≡ true)
    ⊎ ((e : Endpoint) × (endpoint_of operation ≡ some e)
        × ((node : String) × (c ≡ status_action node vmid e.action)))

module _ {N : Type 0} (t : Transport N) where
  power_job-Sends :
      (operation : JobType) (vmid : ℕ)
      → Keeps (Bound vmid (Sends (IsPowerCall operation vmid))) (power_job (traced t) operation)
  unfolding power_job
  power_job-Sends operation vmid =
      Bound-with_vmid vmid (Sends (IsPowerCall operation vmid))
        (act_on (traced t) operation (endpoint_of operation))
        (act_on-Sends t (IsPowerCall operation vmid) (λ c h. inl h) vmid operation
          (endpoint_of operation) (λ e p node. inr (e, p, (node, refl))))

  -- A job that starts, stops or reboots a VM sends nothing but requests that only read and the action
  -- of the operation on the VMID that the VM had when the job began, however the job ends; and the
  -- VM's row keeps that VMID.
  pub power_job-acts_on_own_vmid :
      (operation : JobType) (vmid : ℕ) (r : Run (Traced N))
      → r.vm.proxmox_vmid ≡ some vmid
      → All (IsPowerCall operation vmid) r.net.calls
      → ((power_job (traced t) operation r).1.vm.proxmox_vmid ≡ some vmid)
        × All (IsPowerCall operation vmid) (power_job (traced t) operation r).1.net.calls
  unfolding Bound Sends
  power_job-acts_on_own_vmid operation vmid r owns before =
      (power_job-Sends operation vmid).at r (owns, before)
