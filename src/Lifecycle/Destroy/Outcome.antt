-- ===== src/Lifecycle/Destroy/Outcome.antt =====
-- What the job that deletes a VM leaves in the VM's row.
use clusteration.Base.{ℕ, ◌≡◌, refl, String, Option, none, some, List, ◌∷◌}
use clusteration.Base.Exec.{◌>>=◌, modify}
use clusteration.Base.Exec.Keeps.{Keeps}
use clusteration.Base.Exec.Then.{Post, Then, Then-bind, Then-after}
use clusteration.Entities.{Vm, Job, deleting, deleted}
use clusteration.Proxmox.{Transport}
use clusteration.Lifecycle.{Run, commit, set_vm}
use clusteration.Lifecycle.Holds.{Holds, Then-set_vm, holds_rules}
use clusteration.Lifecycle.Destroy.{
  locate, stop_first, destroy_located, destroy_vmid, destroy_existing_vm, delete_vm_job,
}

-- A VM that is being deleted, and when it was deleted before.
abbrev IsDeleting : Option ℕ → Vm → Type 0
IsDeleting before v = (v.status ≡ deleting) × (v.deleted_at ≡ before)

-- A VM that is deleted, in the database too.
abbrev pub IsDeleted : {N : Type 0} → Run N → Type 0
IsDeleted r =
    (r.vm.status ≡ deleted)
    × ((now : ℕ) × (r.vm.deleted_at ≡ some now))
    × ((rest : List (Vm × Job)) × (r.saves ≡ (r.vm, r.job) ∷ rest))

module _ {N : Type 0} (t : Transport N) (before : Option ℕ) where
  locate-Holds : (vmid : ℕ) → Keeps (Holds (IsDeleting before)) (locate t vmid)
  unfolding locate
  locate-Holds vmid = search holds_rules depth 12

  stop_first-Holds :
      (operation : String) (vmid : ℕ)
      → Keeps (Holds (IsDeleting before)) (stop_first t operation vmid)
  unfolding stop_first
  stop_first-Holds operation vmid = search holds_rules depth 14

  destroy_located-Holds :
      (operation : String) (vmid : ℕ)
      → Keeps (Holds (IsDeleting before)) (destroy_located t operation vmid)
  unfolding destroy_located
  destroy_located-Holds operation vmid = search (holds_rules, stop_first-Holds) depth 14

  destroy_vmid-Holds :
      (operation : String) (vmid : Option ℕ)
      → Keeps (Holds (IsDeleting before)) (destroy_vmid t operation vmid)
  unfolding destroy_vmid
  destroy_vmid-Holds operation none = search holds_rules
  destroy_vmid-Holds operation (some vmid) =
      search (holds_rules, locate-Holds, destroy_located-Holds) depth 8

  destroy_existing_vm-Holds :
      (operation : String) → Keeps (Holds (IsDeleting before)) (destroy_existing_vm t operation)
  unfolding destroy_existing_vm
  destroy_existing_vm-Holds operation = search (holds_rules, destroy_vmid-Holds)

module _ {N : Type 0} (t : Transport N) where
  marked-Then :
      (before : Option ℕ) (now : ℕ)
      → Then
          (Holds (IsDeleting before))
          (set_vm (λ v. record v { status = deleted; deleted_at = some now }) >>= λ _. commit)
          (λ _. IsDeleted)
          (Holds {N = N} (IsDeleting before))
  unfolding Holds set_vm commit modify ◌>>=◌
  marked-Then before now = record { at = λ r h. (refl, (now, refl), (r.saves, refl)) }

  delete-Then :
      (before : Option ℕ)
      → Then
          (Holds (λ v. v.deleted_at ≡ before))
          (delete_vm_job t)
          (λ _. IsDeleted)
          (Holds (IsDeleting before))
  unfolding delete_vm_job
  delete-Then before =
      Then-bind (λ _. Holds (IsDeleting before)) _ _
        (Then-set_vm (λ v. v.deleted_at ≡ before) (IsDeleting before) (Holds (IsDeleting before))
          (λ v. record v { status = deleting }) (λ v h. (refl, h)))
        (λ _. search (Then-after, holds_rules, destroy_existing_vm-Holds, marked-Then) depth 12)

  -- Where the job that deletes a VM returns, the VM is in `deleted` with the time of its deletion, and
  -- the database has these rows; where it raises, the VM is in `deleting` and is as deleted as before.
  pub delete_vm_job-outcome :
      (r : Run N)
      → Post
          (λ _. IsDeleted)
          (λ r'. (r'.vm.status ≡ deleting) × (r'.vm.deleted_at ≡ r.vm.deleted_at))
          (delete_vm_job t r)
  unfolding Holds
  delete_vm_job-outcome r = (delete-Then r.vm.deleted_at).at r refl
