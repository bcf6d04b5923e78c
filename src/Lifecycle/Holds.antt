-- ===== src/Lifecycle/Holds.antt =====
-- What holds of the VM's row through the steps of a job.
use clusteration.Base.Json.{Fields}
use clusteration.Base.{String}
use clusteration.Base.Exec.{Exec, modify, ◌>>=◌}
use clusteration.Base.Exec.Keeps.{Keeps, keeps_rules}
use clusteration.Base.Exec.Then.{Then}
use clusteration.Entities.{Vm}
use clusteration.Proxmox.{Transport}
use clusteration.Lifecycle.{Run, commit, set_vm, set_job_meta, call, stamp}
use clusteration.Lifecycle.Rules.{Keeps-on_timeout}

unfoldable pub Holds : {N : Type 0} → (Vm → Type 0) → Run N → Type 0
Holds R r = R r.vm

module _ {N : Type 0} (R : Vm → Type 0) where
  pub Holds-commit : Keeps (Holds {N = N} R) commit
  unfolding Holds commit modify
  Holds-commit = record { at = λ r h. h }

  pub Holds-set_vm : (f : Vm → Vm) → ((v : Vm) → R v → R (f v)) → Keeps (Holds {N = N} R) (set_vm f)
  unfolding Holds set_vm modify
  Holds-set_vm f keeps = record { at = λ r. keeps r.vm }

  pub Holds-set_job_meta : (patch : Fields) → Keeps (Holds {N = N} R) (set_job_meta patch)
  unfolding Holds set_job_meta modify ◌>>=◌
  Holds-set_job_meta patch = record { at = λ r h. h }

  pub Holds-stamp : (t : Transport N) (patch : String → Fields) → Keeps (Holds R) (stamp t patch)
  unfolding stamp
  Holds-stamp t patch = search (keeps_rules, Holds-set_job_meta)

  pub Holds-call : {A : Type 0} (m : Exec N A) → Keeps (Holds R) (call m)
  unfolding Holds call
  Holds-call m = record { at = λ r h. h }

module _ {N : Type 0} (R R' : Vm → Type 0) (E : Run N → Type 0) where
  pub Then-set_vm :
      (f : Vm → Vm) → ((v : Vm) → R v → R' (f v)) → Then (Holds R) (set_vm f) (λ _. Holds R') E
  unfolding Holds set_vm modify
  Then-set_vm f change = record { at = λ r. change r.vm }

pub ruleset holds_rules = (
  keeps_rules, Holds-commit, Holds-set_vm, Holds-set_job_meta, Holds-stamp, Holds-call,
  Keeps-on_timeout,
)
