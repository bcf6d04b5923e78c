-- ===== src/Lifecycle.antt =====
-- backend/app/services/lifecycle.py: the jobs that create, reinstall, start, stop, reboot and delete a
-- VM. A job runs in one database session, on one row of `jobs` and one of `vms`.
pub mod Rules
pub mod Holds
pub mod Tracked
pub mod Disk
pub mod Destroy
pub mod Provision
pub mod Power
use clusteration.Base.{
  ℕ, String, Bool, true, false, not, first, List, ◌∷◌, Option, none, some, ◌=ₛ◌, if◌then◌else◌,
}
use clusteration.Base.Json.{Json, Fields, str, bool, field, end, get, merge, truthy, py_str}
use clusteration.Base.Exec.{
  Exc, proxmox, timeout, ProxmoxKind, Exec, pure, raise, gets, modify, ◌>>=◌, ◌>>◌,
}
use clusteration.Entities.{Vm, Job, Template, VmStatus, SshStatus}
use clusteration.Settings.{Settings}
use clusteration.Proxmox.{Transport}

-- A running job: its rows as the session holds them, what `db.commit()` has written so far (the
-- newest first), and the world outside. The other rows do not change.
pub record Run (N : Type 0) : Type 0 where
  pub vm : Vm
  pub job : Job
  pub saves : List (Vm × Job)
  pub net : N

module _ {N : Type 0} where
  unfoldable pub commit : Exec (Run N) Unit
  unfolding modify
  commit = modify (λ r. record r { saves = (r.vm, r.job) ∷ r.saves })

  unfoldable pub set_vm : (Vm → Vm) → Exec (Run N) Unit
  unfolding modify
  set_vm f = modify (λ r. record r { vm = f r.vm })

  unfoldable pub patch_meta : Fields → Exec (Run N) Unit
  unfolding modify merge
  patch_meta patch = modify (λ r. record r { job = record r.job { meta = merge r.job.meta patch } })

  unfoldable pub set_job_meta : Fields → Exec (Run N) Unit
  unfolding patch_meta commit ◌>>=◌
  set_job_meta patch = patch_meta patch >> commit

  -- A call of the Proxmox client within a job.
  unfoldable pub call : {A : Type 0} → Exec N A → Exec (Run N) A
  call m r = let (a, n) = m r.net in (a, record r { net = n })

  -- `except ProxmoxTimeoutError`: every other exception goes on.
  unfoldable pub on_timeout : {A : Type 0} → (String → Exec (Run N) A) → Exc → Exec (Run N) A
  unfolding raise
  on_timeout h (proxmox timeout msg) = h msg
  on_timeout h e = raise e

  -- `set_job_meta` with `"polled_at": iso_now()` at the end of the patch
  unfoldable pub stamp : Transport N → (String → Fields) → Exec (Run N) Unit
  unfolding set_job_meta ◌>>=◌
  stamp t patch = do now ← gets (λ r. t.iso_now r.net); set_job_meta (patch now)

  abbrev pub set_status : VmStatus → Exec (Run N) Unit
  set_status s = set_vm (λ v. record v { status = s })

  abbrev pub set_ssh_status : SshStatus → Exec (Run N) Unit
  set_ssh_status s = set_vm (λ v. record v { ssh_status = s })

  abbrev pub set_node : String → Exec (Run N) Unit
  set_node node = set_vm (λ v. record v { node = node })

abbrev pub polled_at : String → Fields
polled_at now = field "polled_at" (str now) end

-- `(template.defaults or {}).get("node") or settings.PROXMOX_DEFAULT_NODE`
unfoldable pub preferred_node : Settings → Template → String
unfolding get truthy py_str
preferred_node settings template =
    let node = get "node" template.defaults in
    if truthy node then py_str node else settings.proxmox_default_node

-- `template.defaults and template.defaults.get("enabled") is False`
unfoldable pub is_disabled : Template → Bool
unfolding get
is_disabled template = elim (get "enabled" template.defaults) [ bool b ↦ not b | _ ↦ false ]

-- `select(Template).where(Template.os == os)`
unfoldable pub find_template : String → List Template → Option Template
find_template os = first (λ (t : Template). t.os =ₛ os)
