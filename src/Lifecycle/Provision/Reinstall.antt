-- ===== src/Lifecycle/Provision/Reinstall.antt =====
-- The job that reinstalls a VM destroys that VM and changes no other but its clone.
use clusteration.Base.{ℕ, ◌≡◌, refl, inl, inr, String, Option, none, some, All, List}
use clusteration.Base.Exec.{Exec, modify, ◌>>=◌}
use clusteration.Base.Exec.Keeps.{Keeps}
use clusteration.Base.Exec.Then.{Then, Then-after, Then-holds}
use clusteration.Entities.{Vm, Template}
use clusteration.Settings.{Settings}
use clusteration.Proxmox.{Transport}
use clusteration.Proxmox.Trace.{Traced, traced}
use clusteration.Proxmox.Calls.{Sends}
use clusteration.Lifecycle.{Run, set_vm, find_template}
use clusteration.Lifecycle.Rules.{OnNet, Bound, bound_rules, net_rules}
use clusteration.Lifecycle.Destroy.{destroy_existing_vm}
use clusteration.Lifecycle.Destroy.Calls.{IsDestroyCall, destroy_existing_vm-Sends}
use clusteration.Lifecycle.Provision.{or_missing, found_template, reinstall_vm_job}
use clusteration.Lifecycle.Provision.Calls.{IsAllowed}
use clusteration.Lifecycle.Provision.OneVm.{Before, OneVm, Before-OneVm, provision-Then}

module _ {N : Type 0} (t : Transport N) (settings : Settings) (templates : List Template)
    (own : ℕ) where
  -- The requests for the old VM, whose VMID the row still has.
  abbrev Owned : Run (Traced N) → Type 0
  Owned = Bound own (Sends (IsDestroyCall own))

  or_missing-Owned :
      (found : Option Template) → Keeps Owned (or_missing (traced t) settings templates found)
  unfolding or_missing
  or_missing-Owned none = search bound_rules
  or_missing-Owned (some template) = search bound_rules

  found_template-Owned :
      (os : String) → Keeps Owned (found_template (traced t) settings templates os)
  unfolding found_template
  found_template-Owned os = or_missing-Owned (find_template os templates)

  destroys-Owned : (operation : String) → Keeps Owned (destroy_existing_vm (traced t) operation)
  destroys-Owned operation =
      destroy_existing_vm-Sends t (IsDestroyCall own) (λ c h. inl h) own
        (λ node. inr (inl (node, refl))) (λ node. inr (inr (node, refl))) operation

  Owned-OneVm : (r : Run (Traced N)) → Owned r → OneVm (IsDestroyCall own) r
  unfolding Bound OnNet
  Owned-OneVm r h = Before-OneVm (IsDestroyCall own) r (h.1)

  -- The row gives its VMID up.
  given_up :
      (f : Vm → Vm) (k : Unit → Exec (Run (Traced N)) Unit)
      → ((a : Unit)
          → Then
              (Before (IsDestroyCall own))
              (k a)
              (λ _. OneVm (IsDestroyCall own))
              (OneVm (IsDestroyCall own)))
      → Then Owned (set_vm f >>= k) (λ _. OneVm (IsDestroyCall own)) (OneVm (IsDestroyCall own))
  unfolding Bound OnNet set_vm modify ◌>>=◌
  given_up f k then = record { at = λ r h. (then tt).at (record r { vm = f r.vm }) h.1 }

  reinstall-Then :
      (password : String) (os : Option String)
      → Then Owned
          (reinstall_vm_job (traced t) settings templates password os)
          (λ _. OneVm (IsDestroyCall own))
          (OneVm (IsDestroyCall own))
  unfolding reinstall_vm_job
  reinstall-Then password os =
      search
        (
          Then-after,
          bound_rules,
          net_rules,
          found_template-Owned,
          destroys-Owned,
          given_up,
          provision-Then t settings,
          Owned-OneVm,
          Before-OneVm,
          inl,
        )
        depth 20

module _ {N : Type 0} (t : Transport N) (settings : Settings) (templates : List Template) where
  -- The job that reinstalls a VM with a VMID, begun when every request only read or was for the
  -- destruction of that VMID, stops and destroys no other VMID, and changes at most one other VM of
  -- Proxmox, its clone, as the job that creates a VM does, however the job ends.
  pub reinstall_vm_job-destroys_own_vmid :
      (own : ℕ) (password : String) (os : Option String) (r : Run (Traced N))
      → r.vm.proxmox_vmid ≡ some own
      → All (IsDestroyCall own) r.net.calls
      → (v : ℕ) × All
          (IsAllowed (IsDestroyCall own) v)
          (reinstall_vm_job (traced t) settings templates password os r).1.net.calls
  unfolding Bound OnNet Sends
  reinstall_vm_job-destroys_own_vmid own password os r has before =
      Then-holds (reinstall_vm_job (traced t) settings templates password os)
        (reinstall-Then t settings templates own password os) r (has, before)
