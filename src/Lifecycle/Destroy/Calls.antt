-- ===== src/Lifecycle/Destroy/Calls.antt =====
-- The job that deletes a VM stops and destroys no other VM.
use clusteration.Base.{ℕ, ◌≡◌, true, refl, ◌⊎◌, inl, inr, String, some, All}
use clusteration.Base.Exec.Keeps.{Keeps}
use clusteration.Proxmox.{Call, Transport, status_action, destroy}
use clusteration.Proxmox.Trace.{Traced, traced}
use clusteration.Proxmox.Calls.{Sends, is_read, sends_rules}
use clusteration.Proxmox.Resolve.Calls.{resolve_vm_node-Sends}
use clusteration.Proxmox.Wait.Calls.{wait_for_task-Sends}
use clusteration.Lifecycle.{Run}
use clusteration.Lifecycle.Rules.{Bound, bound_rules, Bound-with_vmid}
use clusteration.Lifecycle.Destroy.{
  locate, stop_first, destroy_located, destroy_vmid, destroy_existing_vm, delete_vm_job,
}

-- A request that only reads, or one that stops or destroys this VM.
abbrev pub IsDestroyCall : ℕ → Call → Type 0
IsDestroyCall vmid c =
    (is_read c ≡ true)
    ⊎ (((node : String) × (c ≡ status_action node vmid "stop"))
        ⊎ ((node : String) × (c ≡ destroy node vmid)))

module _ {N : Type 0} (t : Transport N) (C : Call → Type 0)
    (reads : (c : Call) → is_read c ≡ true → C c) (vmid : ℕ)
    (stops : (node : String) → C (status_action node vmid "stop"))
    (destroys : (node : String) → C (destroy node vmid)) where
  locate-Sends : Keeps (Bound vmid (Sends C)) (locate (traced t) vmid)
  unfolding locate
  locate-Sends = search (bound_rules, resolve_vm_node-Sends, reads) depth 12

  stop_first-Sends :
      (operation : String) → Keeps (Bound vmid (Sends C)) (stop_first (traced t) operation vmid)
  unfolding stop_first
  stop_first-Sends operation =
      search (bound_rules, sends_rules, wait_for_task-Sends, reads, stops) depth 14

  destroy_located-Sends :
      (operation : String)
      → Keeps (Bound vmid (Sends C)) (destroy_located (traced t) operation vmid)
  unfolding destroy_located
  destroy_located-Sends operation =
      search (bound_rules, sends_rules, wait_for_task-Sends, stop_first-Sends, reads, destroys)
        depth 14

  destroy_vmid-Sends :
      (operation : String)
      → Keeps (Bound vmid (Sends C)) (destroy_vmid (traced t) operation (some vmid))
  unfolding destroy_vmid
  destroy_vmid-Sends operation = search (bound_rules, locate-Sends, destroy_located-Sends) depth 8

  pub destroy_existing_vm-Sends :
      (operation : String) → Keeps (Bound vmid (Sends C)) (destroy_existing_vm (traced t) operation)
  unfolding destroy_existing_vm
  destroy_existing_vm-Sends operation = search (Bound-with_vmid, destroy_vmid-Sends)

  delete_vm_job-Sends : Keeps (Bound vmid (Sends C)) (delete_vm_job (traced t))
  unfolding delete_vm_job
  delete_vm_job-Sends = search (bound_rules, destroy_existing_vm-Sends) depth 12

module _ {N : Type 0} (t : Transport N) where
  -- The job that deletes a VM sends nothing but requests that only read, and requests that stop or
  -- destroy the VMID that the VM had when the job began; and the VM's row keeps that VMID.
  pub delete_vm_job-destroys_own_vmid :
      (vmid : ℕ) (r : Run (Traced N))
      → r.vm.proxmox_vmid ≡ some vmid
      → All (IsDestroyCall vmid) r.net.calls
      → ((delete_vm_job (traced t) r).1.vm.proxmox_vmid ≡ some vmid)
        × All (IsDestroyCall vmid) (delete_vm_job (traced t) r).1.net.calls
  unfolding Bound Sends
  delete_vm_job-destroys_own_vmid vmid r owns before =
      (delete_vm_job-Sends t (IsDestroyCall vmid) (λ c h. inl h) vmid
          (λ node. inr (inl (node, refl))) (λ node. inr (inr (node, refl)))).at
        r (owns, before)
