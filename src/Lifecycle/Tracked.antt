-- ===== src/Lifecycle/Tracked.antt =====
-- A job that notes the VMID of the VM that it clones, so that a restart finds it.
use clusteration.Base.{
  ℕ, zero, suc, ◌<◌, ◌≡◌, refl, ◌∙◌, ◌⊎◌, inl, inr, String, Bool, true, false, List, [], ◌∷◌, All,
  Option, none, some, ◌=ₛ◌, arith, if◌then◌else◌,
}
use clusteration.Base.Json.{Json, Fields, num, pos, field, end, get, insert, merge, get-insert}
use clusteration.Base.Exec.{Exec, ok, modify, gets, ◌>>=◌}
use clusteration.Base.Exec.Keeps.{Keeps, keeps_rules}
use clusteration.Entities.{Vm, Job}
use clusteration.Proxmox.{Transport}
use clusteration.Lifecycle.{Run, commit, set_vm, patch_meta, set_job_meta, call, stamp}
use clusteration.Lifecycle.Rules.{Keeps-on_timeout}
use clusteration.Worker.Recovery.{adopt, node_or_own}

-- What a restart makes of these rows, if the job is interrupted with them: the VM has this VMID.
abbrev pub IsRecovered : ℕ → Vm × Job → Type 0
IsRecovered vmid (vm, job) = (vm' : Vm) × (adopt job vm ≡ ok vm') × (vm'.proxmox_vmid ≡ some vmid)

abbrev pub Notes : ℕ → Fields → Type 0
Notes vmid meta = get "target_vmid" meta ≡ num (pos vmid)

abbrev pub HasNoOther : ℕ → Vm → Type 0
HasNoOther vmid vm = (vm.proxmox_vmid ≡ none) ⊎ (vm.proxmox_vmid ≡ some vmid)

noted-IsRecovered :
    (vmid : ℕ) (vm : Vm) (job : Job)
    → 0 < vmid
    → Notes vmid job.meta
    → HasNoOther vmid vm
    → IsRecovered vmid (vm, job)
unfolding adopt
noted-IsRecovered (suc n) vm job more notes (inl p) = (
  record vm { proxmox_vmid = some (suc n); node = node_or_own (get "node" job.meta) vm.node },
  rw (notes, p, notes),
  refl,
)
noted-IsRecovered (suc n) vm job more notes (inr p) = (vm, simp (notes, p), p)
noted-IsRecovered zero vm job more notes has = absurd (omega arith)

-- The job has noted the VMID, and all that it has committed since would be recovered.
pub Tracked : {N : Type 0} → ℕ → Run N → Type 0
Tracked vmid r =
    (0 < vmid) × Notes vmid r.job.meta × HasNoOther vmid r.vm × All (IsRecovered vmid) r.saves

-- A patch that leaves the note.
pub record IsHarmless (vmid : ℕ) (patch : Fields) : Type 0 where
  pub at : (meta : Fields) → Notes vmid meta → Notes vmid (merge meta patch)

module _ (vmid : ℕ) where
  pub IsHarmless-end : IsHarmless vmid end
  unfolding merge
  IsHarmless-end = record { at = λ meta h. h }

  pub IsHarmless-field :
      (k : String) (v : Json) (patch : Fields)
      → (k =ₛ "target_vmid") ≡ false
      → IsHarmless vmid patch
      → IsHarmless vmid (field k v patch)
  unfolding merge
  IsHarmless-field k v patch other harmless = record {
    at = λ meta h. harmless.at (insert k v meta) (rw (get-insert k "target_vmid" v meta, other) h);
  }

  pub IsHarmless-note :
      (patch : Fields)
      → IsHarmless vmid patch
      → IsHarmless vmid (field "target_vmid" (num (pos vmid)) patch)
  unfolding merge
  IsHarmless-note patch harmless = record {
    at = λ meta h.
        harmless.at (insert "target_vmid" (num (pos vmid)) meta)
          (rw (get-insert "target_vmid" "target_vmid" (num (pos vmid)) meta) refl);
  }

module _ {N : Type 0} (vmid : ℕ) where
  pub Tracked-commit : Keeps (Tracked {N = N} vmid) commit
  unfolding Tracked commit modify
  Tracked-commit = record {
    at = λ r (more, notes, has, saved).
        (more, notes, has, (noted-IsRecovered vmid r.vm r.job more notes has, saved));
  }

  pub Tracked-set_vm :
      (f : Vm → Vm)
      → ((v : Vm) → HasNoOther vmid v → HasNoOther vmid (f v))
      → Keeps (Tracked {N = N} vmid) (set_vm f)
  unfolding Tracked set_vm modify
  Tracked-set_vm f keeps = record {
    at = λ r (more, notes, has, saved). (more, notes, keeps r.vm has, saved);
  }

  pub Tracked-set_job_meta :
      (patch : Fields) → IsHarmless vmid patch → Keeps (Tracked {N = N} vmid) (set_job_meta patch)
  unfolding Tracked set_job_meta patch_meta modify ◌>>=◌ commit
  Tracked-set_job_meta patch harmless = record {
    at = λ r (more, notes, has, saved).
        let notes' = harmless.at r.job.meta notes in
        (more, notes', has, (noted-IsRecovered vmid r.vm _ more notes' has, saved));
  }

  pub Tracked-stamp :
      (t : Transport N) (patch : String → Fields)
      → ((now : String) → IsHarmless vmid (patch now))
      → Keeps (Tracked vmid) (stamp t patch)
  unfolding stamp
  Tracked-stamp t patch harmless = search (keeps_rules, Tracked-set_job_meta, harmless)

  pub Tracked-call : {A : Type 0} (m : Exec N A) → Keeps (Tracked vmid) (call m)
  unfolding Tracked call
  Tracked-call m = record { at = λ r h. h }

-- A patch that makes the note.
pub record IsNote (vmid : ℕ) (patch : Fields) : Type 0 where
  pub at : (meta : Fields) → Notes vmid (merge meta patch)

module _ (vmid : ℕ) where
  pub IsNote-later :
      (k : String) (v : Json) (patch : Fields) → IsNote vmid patch → IsNote vmid (field k v patch)
  unfolding merge
  IsNote-later k v patch note = record { at = λ meta. note.at (insert k v meta) }

  pub IsNote-here :
      (patch : Fields)
      → IsHarmless vmid patch
      → IsNote vmid (field "target_vmid" (num (pos vmid)) patch)
  unfolding merge
  IsNote-here patch harmless = record {
    at = λ meta.
        harmless.at (insert "target_vmid" (num (pos vmid)) meta)
          (rw (get-insert "target_vmid" "target_vmid" (num (pos vmid)) meta) refl);
  }

-- A job that has noted nothing: its VM has no VMID, and nothing has been committed.
pub IsFresh : {N : Type 0} → ℕ → Run N → Type 0
IsFresh vmid r = (0 < vmid) × (r.vm.proxmox_vmid ≡ none) × (r.saves ≡ [])

module _ {N : Type 0} (vmid : ℕ) where
  pub IsFresh-run :
      (r : Run N) → 0 < vmid → r.vm.proxmox_vmid ≡ none → r.saves ≡ [] → IsFresh vmid r
  unfolding IsFresh
  IsFresh-run r more has saved = (more, has, saved)

  pub Tracked-saves : (r : Run N) → Tracked vmid r → All (IsRecovered vmid) r.saves
  unfolding Tracked
  Tracked-saves r (more, notes, has, saved) = saved

  pub Fresh-gets : {A : Type 0} (f : Run N → A) → Keeps (IsFresh {N = N} vmid) (gets f)
  Fresh-gets f = search keeps_rules

  pub noting-Tracked :
      (t : Transport N) (patch : String → Fields)
      → ((now : String) → IsNote vmid (patch now))
      → (r : Run N) → IsFresh vmid r
      → Tracked vmid (stamp t patch r).1
  unfolding IsFresh Tracked stamp set_job_meta patch_meta commit modify ◌>>=◌
  noting-Tracked t patch note r (more, has, saved) =
      let notes = (note (t.iso_now r.net)).at r.job.meta in
      (more, notes, inl has, (noted-IsRecovered vmid r.vm _ more notes (inl has), rw saved tt))

pub ruleset tracked_rules = (
  keeps_rules, Tracked-commit, Tracked-set_vm, Tracked-set_job_meta, Tracked-stamp, Tracked-call,
  Keeps-on_timeout, IsHarmless-end, IsHarmless-field, IsHarmless-note, refl,
)
