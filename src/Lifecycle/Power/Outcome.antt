-- ===== src/Lifecycle/Power/Outcome.antt =====
-- What the job that starts, stops or reboots a VM leaves in the VM's row.
use clusteration.Base.{ℕ, ◌≡◌, refl, ap, ◌∙◌, ◌⊎◌, inl, inr, String, some, List, ◌∷◌}
use clusteration.Base.Exec.{Exec, ◌>>=◌, modify}
use clusteration.Base.Exec.Keeps.{Keeps}
use clusteration.Base.Exec.Then.{Post, Then, Then-bind, Then-after}
use clusteration.Entities.{Vm, Job, JobType, VmStatus}
use clusteration.Proxmox.{Transport}
use clusteration.Lifecycle.{Run, commit, set_vm}
use clusteration.Lifecycle.Holds.{Holds, Then-set_vm, holds_rules}
use clusteration.Lifecycle.Power.{Endpoint, endpoint_of, look_for_ip, act, act_on, power_job}

abbrev Has : VmStatus → Vm → Type 0
Has s v = v.status ≡ s

-- The row of a VM that has come to the status `s`, in the database too.
abbrev HasCome : {N : Type 0} → VmStatus → Run N → Type 0
HasCome s r = (r.vm.status ≡ s) × ((rest : List (Vm × Job)) × (r.saves ≡ (r.vm, r.job) ∷ rest))

-- The status while the operation runs, or the one behind it.
abbrev IsUnderWay : {N : Type 0} → Endpoint → Run N → Type 0
IsUnderWay e = Holds (λ v. Has e.transient v ⊎ Has e.final v)

module _ {N : Type 0} (t : Transport N) (e : Endpoint) where
  transient-UnderWay : (r : Run N) → Holds (Has e.transient) r → IsUnderWay e r
  unfolding Holds
  transient-UnderWay r h = inl h

  final-UnderWay : (r : Run N) → Holds (Has e.final) r → IsUnderWay e r
  unfolding Holds
  final-UnderWay r h = inr h

  look_for_ip-Holds :
      (s : VmStatus) (action : String) (vmid : ℕ)
      → Keeps (Holds (Has s)) (look_for_ip t action vmid)
  unfolding look_for_ip
  look_for_ip-Holds s action vmid = search holds_rules depth 12

  commit-Then : Then (Holds (Has e.final)) commit (λ _. HasCome e.final) (IsUnderWay {N = N} e)
  unfolding Holds commit modify
  commit-Then = record { at = λ r h. (h, (r.saves, refl)) }

  -- The row goes from one status to the next.
  to_transient :
      (f : Unit → Exec (Run N) Unit)
      → ((a : Unit) → Then (Holds (Has e.transient)) (f a) (λ _. HasCome e.final) (IsUnderWay e))
      → Then
          (Holds (λ _. Unit))
          (set_vm (λ v. record v { status = e.transient }) >>= f)
          (λ _. HasCome e.final)
          (IsUnderWay e)
  to_transient f k =
      Then-bind (λ _. Holds (Has e.transient)) _ f
        (Then-set_vm (λ _. Unit) (Has e.transient) (IsUnderWay e) _ (λ v h. refl)) k

  to_final :
      (f : Unit → Exec (Run N) Unit)
      → ((a : Unit) → Then (Holds (Has e.final)) (f a) (λ _. HasCome e.final) (IsUnderWay e))
      → Then
          (Holds (Has e.transient))
          (set_vm (λ v. record v { status = e.final }) >>= f)
          (λ _. HasCome e.final)
          (IsUnderWay e)
  to_final f k =
      Then-bind (λ _. Holds (Has e.final)) _ f
        (Then-set_vm (Has e.transient) (Has e.final) (IsUnderWay e) _ (λ v h. refl)) k

  act-Then :
      (operation : JobType) (vmid : ℕ)
      → Then (Holds (λ _. Unit)) (act t operation e vmid) (λ _. HasCome e.final) (IsUnderWay e)
  unfolding act
  act-Then operation vmid =
      search
        (
          to_transient, to_final, Then-after, holds_rules, look_for_ip-Holds, transient-UnderWay,
          final-UnderWay, commit-Then,
        )
        depth 24

module _ {N : Type 0} (t : Transport N) where
  power_job_acts :
      (operation : JobType) (e : Endpoint) (vmid : ℕ) (r : Run N)
      → endpoint_of operation ≡ some e
      → r.vm.proxmox_vmid ≡ some vmid
      → power_job t operation r ≡ act t operation e vmid r
  unfolding power_job act_on ◌>>=◌
  power_job_acts operation e vmid r known owns =
      ap (λ o. act_on t operation (endpoint_of operation) o r) owns
      ∙ ap (λ o. act_on t operation o (some vmid) r) known

  -- Where a job that starts, stops or reboots a VM with a VMID returns, the VM is in the status that
  -- is behind the operation, and the database has these rows; where it raises, the VM is in the status
  -- while the operation runs or the one behind it.
  pub power_job-outcome :
      (operation : JobType) (e : Endpoint) (vmid : ℕ) (r : Run N)
      → endpoint_of operation ≡ some e
      → r.vm.proxmox_vmid ≡ some vmid
      → Post
          (λ _ r'.
            (r'.vm.status ≡ e.final)
            × ((rest : List (Vm × Job)) × (r'.saves ≡ (r'.vm, r'.job) ∷ rest)))
          (λ r'. (r'.vm.status ≡ e.transient) ⊎ (r'.vm.status ≡ e.final))
          (power_job t operation r)
  unfolding Holds
  power_job-outcome operation e vmid r known owns =
      rw (power_job_acts operation e vmid r known owns) ((act-Then t e operation vmid).at r tt)
