-- ===== src/Worker.antt =====
-- backend/app/workers/inprocess.py: the queue of jobs, and what the worker does with each payload.
pub mod Recovery
pub mod Jobs
pub mod Settles
use clusteration.Base.{
  ℕ, ◌+◌, String, ◌<>◌, Bool, true, false, List, [], ◌∷◌, ◌++◌, Option, none, some, ◌=ₛ◌,
  if◌then◌else◌,
}
use clusteration.Base.Text.{take_chars, show}
use clusteration.Base.Json.{Fields, Json, str, end, get}
use clusteration.Base.Exec.{
  Exc, ProxmoxKind, base, auth, task, timeout, proxmox, runtime, app, other, out_of_fuel, Result,
  ok, err, Exec, pure, raise, gets, modify, try_except, ◌>>=◌, ◌>>◌,
}
use clusteration.Entities.{
  Vm, VmStatus, Job, JobType, JobStatus, success, create_vm, reinstall_vm, start_vm, stop_vm,
  reboot_vm, delete_vm, ssh_readiness_check, Template,
}
use clusteration.Settings.{Settings}
use clusteration.Database.{Db, get_vm, get_job, put_vm, put_job, new_job, add_job}
use clusteration.Proxmox.{Transport}
use clusteration.Lifecycle.{Run, commit, set_status}
use clusteration.Lifecycle.Provision.{create_vm_job, reinstall_vm_job}
use clusteration.Lifecycle.Power.{power_job, comes_up}
use clusteration.Lifecycle.Destroy.{delete_vm_job}
use clusteration.Terminal.{check_ssh_ready}

-- What `enqueue` is given; a key that is left out is `none`.
pub record Payload : Type 0 where
  pub type : JobType
  pub job_id : ℕ
  pub vm_id : Option ℕ
  pub root_password : Option String
  pub template : Option String

-- The service: its database, its queue, and the world outside.
pub record World (N : Type 0) : Type 0 where
  pub db : Db
  pub queue : List Payload
  pub net : N

-- `JOB_QUEUE.put(payload)`
unfoldable pub enqueue : {N : Type 0} → Payload → World N → World N
enqueue payload w = record w { queue = w.queue ++ payload ∷ [] }

-- A payload of a job that has no password and no template.
abbrev pub plain_payload : JobType → ℕ → Option ℕ → Payload
plain_payload type job_id vm_id = record {
  type = type;
  job_id = job_id;
  vm_id = vm_id;
  root_password = none;
  template = none;
}

-- `exc.__class__.__name__` of a `ProxmoxError`
class_name : ProxmoxKind → String
class_name base = "ProxmoxError"
class_name auth = "ProxmoxAuthError"
class_name task = "ProxmoxTaskError"
class_name timeout = "ProxmoxTimeoutError"

-- `str(exc) or exc.__class__.__name__`, which is what `other` holds; the `str` of Starlette's exception
-- begins with its status.
unfoldable message_of : Exc → String
unfolding class_name show
message_of (proxmox kind msg) = if msg =ₛ "" then class_name kind else msg
message_of (runtime msg) = if msg =ₛ "" then "RuntimeError" else msg
message_of (app _ msg status) = show status <> ": " <> msg
message_of (other msg) = msg
message_of out_of_fuel = ""

unfoldable pub sanitize_job_error : Exc → String
unfolding take_chars message_of
sanitize_job_error e = take_chars 500 (message_of e)

-- `payload.get("template") or (job.meta or {}).get("template")`
abbrev template_os : Option String → Fields → Option String
template_os (some os) meta =
    if os =ₛ "" then elim (get "template" meta) [ str s ↦ some s | _ ↦ none ] else some os
template_os none meta = elim (get "template" meta) [ str s ↦ some s | _ ↦ none ]

-- Whether a job that has gone well is followed by an SSH check.
unfoldable pub wants_ssh_check : JobType → Bool
wants_ssh_check create_vm = true
wants_ssh_check reinstall_vm = true
wants_ssh_check type = comes_up type

module _ {N : Type 0} where
  abbrev pub set_job_status : JobStatus → Exec (Run N) Unit
  set_job_status s = modify (λ r. record r { job = record r.job { status = s } })

  -- `payload["root_password"]`
  abbrev with_password : Option String → (String → Exec (Run N) Unit) → Exec (Run N) Unit
  with_password none m = raise (other "'root_password'")
  with_password (some password) m = m password

  -- `except Exception`
  unfoldable pub job_failed : Exc → Exec (Run N) Unit
  unfolding sanitize_job_error modify
  job_failed e = do
    set_status VmStatus.error
    modify (λ r. record r {
      job = record r.job { status = JobStatus.failed; error = some (sanitize_job_error e) };
    })
    commit

module _ {N : Type 0} (t : Transport N) (settings : Settings) (templates : List Template) where
  -- The branch of `dispatch` for the job's type.
  unfoldable pub job_body : JobType → Payload → Exec (Run N) Unit
  unfolding get
  job_body create_vm p = with_password p.root_password (create_vm_job t settings templates)
  job_body reinstall_vm p = do
    meta ← gets (λ r. r.job.meta)
    with_password p.root_password
        λ password. reinstall_vm_job t settings templates password (template_os p.template meta)
  job_body delete_vm p = delete_vm_job t
  job_body ssh_readiness_check p = do check_ssh_ready t; pure tt
  job_body type p = power_job t type

  -- The `try` of `dispatch`: whether the job has gone well. The row of the job says so too.
  unfoldable pub attempt_job : JobType → Payload → Exec (Run N) Bool
  unfolding job_failed modify
  attempt_job type p =
      try_except (do job_body type p; set_job_status success; commit; pure true)
        (λ e. do job_failed e; pure false)

  -- The SSH check that follows: its row, and its payload in the queue.
  abbrev follow_up : Bool → ℕ → World N → World N
  follow_up false vm_id w = w
  follow_up true vm_id w =
      let job = new_job ssh_readiness_check vm_id end (t.utcnow w.net) w.db in
      enqueue (plain_payload ssh_readiness_check job.id (some vm_id))
        (record w { db = add_job job w.db })

  -- A job without its VM fails; there is no VM to mark.
  abbrev without_vm : Job → World N → World N
  without_vm job w = record w {
    db =
        put_job
          (record job {
            status = JobStatus.failed;
            error = some (sanitize_job_error (runtime "VM não encontrada"));
          })
          w.db;
  }

  -- The rows that the job leaves.
  abbrev saved : Run N → World N → World N
  saved r w = record w { db = put_job r.job (put_vm r.vm w.db); net = r.net }

  abbrev after_attempt : Job → Vm → Result Bool → World N → World N
  after_attempt job vm (ok true) done = follow_up (wants_ssh_check job.type) vm.id done
  after_attempt job vm _ done = done

  abbrev pub started : Job → Vm → World N → Run N
  started job vm w = record {
    vm = vm;
    job = record job { status = JobStatus.running };
    saves = [];
    net = w.net;
  }

  with_vm : Payload → Job → Vm → World N → World N
  unfolding attempt_job wants_ssh_check enqueue
  with_vm p job vm w =
      let (went_well, r) = attempt_job job.type p (started job vm w) in
      after_attempt job vm went_well (saved r w)

  dispatch_found : Payload → Option Job → Option Vm → World N → World N
  unfolding with_vm sanitize_job_error
  dispatch_found p none vm w = w
  dispatch_found p (some job) none w = without_vm job w
  dispatch_found p (some job) (some vm) w = with_vm p job vm w

  abbrev vm_of : Option ℕ → Db → Option Vm
  vm_of none db = none
  vm_of (some id) db = get_vm id db

  unfoldable pub dispatch : Payload → World N → World N
  unfolding dispatch_found
  dispatch p w = dispatch_found p (get_job p.job_id w.db) (vm_of p.vm_id w.db) w

  -- One round of `worker_loop`.
  unfoldable pub work : World N → World N
  unfolding dispatch
  work w = elim w.queue [ [] ↦ w | p ∷ rest ↦ dispatch p (record w { queue = rest }) ]
