-- ===== src/Lifecycle/Rules.antt =====
-- The rules for the steps of a job: how it ends, and what it keeps.
use mathlib.Core.Path.{subst}
use clusteration.Base.{ℕ, String, ◌≤◌, ◌≡◌, ◌≢◌, refl, sym, ◌∙◌, Option, some, arith}
use clusteration.Base.Json.{Fields}
use clusteration.Base.Exec.{Exc, proxmox, timeout, out_of_fuel, Exec, gets, modify, ◌>>=◌}
use clusteration.Base.Exec.Ends.{IsFine, Ends, Ends-modify, Ends-raise, ends_rules}
use clusteration.Base.Exec.Keeps.{Keeps, Keeps-raise, keeps_rules}
use clusteration.Entities.{Vm, Job}
use clusteration.Proxmox.{Transport}
use clusteration.Lifecycle.{Run, commit, set_vm, set_job_meta, call, on_timeout, stamp}

-- The event loop's clock, seen from a job.
pub clock_of : {N : Type 0} → Transport N → Run N → ℕ
clock_of t r = t.now r.net

module _ {N : Type 0} (t : Transport N) where
  pub Ends-commit : Ends (clock_of t) commit
  unfolding clock_of commit modify
  Ends-commit = record { at = λ r. (λ h. cc h, omega arith) }

  pub Ends-set_vm : (f : Vm → Vm) → Ends (clock_of t) (set_vm f)
  unfolding clock_of set_vm modify
  Ends-set_vm f = record { at = λ r. (λ h. cc h, omega arith) }

  pub Ends-set_job_meta : (patch : Fields) → Ends (clock_of t) (set_job_meta patch)
  unfolding clock_of set_job_meta modify ◌>>=◌
  Ends-set_job_meta patch = record { at = λ r. (λ h. cc h, omega arith) }

  pub Ends-stamp : (patch : String → Fields) → Ends (clock_of t) (stamp t patch)
  unfolding stamp
  Ends-stamp patch = search (ends_rules, Ends-set_job_meta)

  pub Ends-call : {A : Type 0} (m : Exec N A) → Ends t.now m → Ends (clock_of t) (call m)
  unfolding clock_of call
  Ends-call m ends = record { at = λ r. ends.at r.net }

  pub Ends-on_timeout :
      {A : Type 0} (h : String → Exec (Run N) A)
      → ((msg : String) → Ends (clock_of t) (h msg))
      → (e : Exc) → e ≢ out_of_fuel
      → Ends (clock_of t) (on_timeout h e)
  unfolding on_timeout
  Ends-on_timeout h eh (proxmox timeout msg) ne = eh msg
  Ends-on_timeout h eh (proxmox k msg) ne = Ends-raise (proxmox k msg) ne
  Ends-on_timeout h eh e ne = Ends-raise e ne

pub ruleset job_ends = (
  ends_rules, Ends-commit, Ends-set_vm, Ends-set_job_meta, Ends-stamp, Ends-call, Ends-on_timeout,
)

-- What concerns only the world outside.
unfoldable pub OnNet : {N : Type 0} → (N → Type 0) → Run N → Type 0
OnNet Q r = Q r.net

module _ {N : Type 0} (Q : N → Type 0) where
  pub OnNet-commit : Keeps (OnNet Q) commit
  unfolding OnNet commit modify
  OnNet-commit = record { at = λ r h. h }

  pub OnNet-set_vm : (f : Vm → Vm) → Keeps (OnNet Q) (set_vm f)
  unfolding OnNet set_vm modify
  OnNet-set_vm f = record { at = λ r h. h }

  pub OnNet-set_job_meta : (patch : Fields) → Keeps (OnNet Q) (set_job_meta patch)
  unfolding OnNet set_job_meta modify ◌>>=◌
  OnNet-set_job_meta patch = record { at = λ r h. h }

  pub OnNet-stamp : (t : Transport N) (patch : String → Fields) → Keeps (OnNet Q) (stamp t patch)
  unfolding stamp
  OnNet-stamp t patch = search (keeps_rules, OnNet-set_job_meta)

  pub OnNet-call : {A : Type 0} (m : Exec N A) → Keeps Q m → Keeps (OnNet Q) (call m)
  unfolding OnNet call
  OnNet-call m k = record { at = λ r. k.at r.net }

module _ {N : Type 0} {P : Run N → Type 0} where
  pub Keeps-on_timeout :
      {A : Type 0} (h : String → Exec (Run N) A)
      → ((msg : String) → Keeps P (h msg))
      → (e : Exc) → Keeps P (on_timeout h e)
  unfolding on_timeout
  Keeps-on_timeout h kh (proxmox timeout msg) = kh msg
  Keeps-on_timeout h kh (proxmox k msg) = Keeps-raise (proxmox k msg)
  Keeps-on_timeout h kh e = Keeps-raise e

pub ruleset net_rules = (
  keeps_rules, OnNet-commit, OnNet-set_vm, OnNet-set_job_meta, OnNet-stamp, OnNet-call,
  Keeps-on_timeout,
)

-- A change of a VM's row that leaves what identifies and sizes the VM.
abbrev pub IsSameVm : Vm → Vm → Type 0
IsSameVm v w =
    (w.id ≡ v.id)
    × (w.hostname ≡ v.hostname)
    × (w.cpu ≡ v.cpu)
    × (w.memory_mb ≡ v.memory_mb)
    × (w.created_at ≡ v.created_at)

-- The job and the VM are the rows that the job began with, and the job has not been settled yet.
unfoldable pub SameRows : {N : Type 0} → Job → Vm → Run N → Type 0
SameRows job vm r =
    (r.job.id ≡ job.id)
    × (r.job.type ≡ job.type)
    × (r.job.vm_id ≡ job.vm_id)
    × (r.job.status ≡ job.status)
    × IsSameVm vm r.vm

module _ {N : Type 0} (job : Job) (vm : Vm) where
  pub SameRows-commit : Keeps (SameRows {N = N} job vm) commit
  unfolding SameRows commit modify
  SameRows-commit = record { at = λ r h. h }

  pub SameRows-set_vm :
      (f : Vm → Vm) → ((v : Vm) → IsSameVm v (f v)) → Keeps (SameRows {N = N} job vm) (set_vm f)
  unfolding SameRows set_vm modify
  SameRows-set_vm f same = record { at = λ r h. ground (arith, same r.vm) }

  pub SameRows-set_job_meta :
      (patch : Fields) → Keeps (SameRows {N = N} job vm) (set_job_meta patch)
  unfolding SameRows set_job_meta modify ◌>>=◌
  SameRows-set_job_meta patch = record { at = λ r h. h }

  pub SameRows-stamp :
      (t : Transport N) (patch : String → Fields) → Keeps (SameRows job vm) (stamp t patch)
  unfolding stamp
  SameRows-stamp t patch = search (keeps_rules, SameRows-set_job_meta)

  pub SameRows-call : {A : Type 0} (m : Exec N A) → Keeps (SameRows job vm) (call m)
  unfolding SameRows call
  SameRows-call m = record { at = λ r h. h }

pub ruleset row_rules = (
  keeps_rules, SameRows-commit, SameRows-set_vm, SameRows-set_job_meta, SameRows-stamp,
  SameRows-call, Keeps-on_timeout, refl,
)

-- The VM of the job has this VMID, and what concerns the world outside.
unfoldable pub Bound : {N : Type 0} → ℕ → (N → Type 0) → Run N → Type 0
Bound vmid Q r = (r.vm.proxmox_vmid ≡ some vmid) × Q r.net

module _ {N : Type 0} (vmid : ℕ) (Q : N → Type 0) where
  pub Bound-commit : Keeps (Bound vmid Q) commit
  unfolding Bound commit modify
  Bound-commit = record { at = λ r h. h }

  pub Bound-set_vm :
      (f : Vm → Vm)
      → ((v : Vm) → (f v).proxmox_vmid ≡ v.proxmox_vmid)
      → Keeps (Bound vmid Q) (set_vm f)
  unfolding Bound set_vm modify
  Bound-set_vm f same = record { at = λ r h. (same r.vm ∙ h.0, h.1) }

  pub Bound-set_job_meta : (patch : Fields) → Keeps (Bound vmid Q) (set_job_meta patch)
  unfolding Bound set_job_meta modify ◌>>=◌
  Bound-set_job_meta patch = record { at = λ r h. h }

  pub Bound-stamp :
      (t : Transport N) (patch : String → Fields) → Keeps (Bound vmid Q) (stamp t patch)
  unfolding stamp
  Bound-stamp t patch = search (keeps_rules, Bound-set_job_meta)

  pub Bound-call : {A : Type 0} (m : Exec N A) → Keeps Q m → Keeps (Bound vmid Q) (call m)
  unfolding Bound call
  Bound-call m k = record { at = λ r h. (h.0, k.at r.net h.1) }

  -- A step that reads the VMID goes on with the one that the VM has.
  pub Bound-with_vmid :
      {A : Type 0} (m : Option ℕ → Exec (Run N) A)
      → Keeps (Bound vmid Q) (m (some vmid))
      → Keeps (Bound vmid Q) (gets (λ r. r.vm.proxmox_vmid) >>= m)
  unfolding Bound ◌>>=◌
  Bound-with_vmid m k = record {
    at = λ r h. subst (λ o. Bound vmid Q (m o r).1) (sym (h.0)) (k.at r h);
  }

pub ruleset bound_rules = (
  keeps_rules, Bound-commit, Bound-set_vm, Bound-set_job_meta, Bound-stamp, Bound-call,
  Keeps-on_timeout, refl,
)
