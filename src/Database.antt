-- ===== src/Database.antt =====
-- The tables of the panel's database, and the queries that several components share. A list holds the
-- rows of a table in the order of their creation. Ids are drawn from one counter, for `uuid.uuid4`.
pub mod Lookup
use clusteration.Base.{
  ℕ, ◌+◌, Bool, true, false, List, [], ◌∷◌, ◌++◌, Option, none, some, first, adjust, ◌==◌,
}
use clusteration.Entities.{
  Vm, Job, JobType, JobStatus, queued, TerminalSession, VmExposure, Template, AuditEvent,
  AdminCredential, PasswordReset,
}
use clusteration.Base.Json.{Fields}

pub record Db : Type 0 where
  pub vms : List Vm
  pub jobs : List Job
  pub sessions : List TerminalSession
  pub exposures : List VmExposure
  pub templates : List Template
  pub audit_events : List AuditEvent
  pub credentials : List AdminCredential
  pub resets : List PasswordReset
  pub next_id : ℕ

abbrev pub empty_db : Db
empty_db = record {
  vms = [];
  jobs = [];
  sessions = [];
  exposures = [];
  templates = [];
  audit_events = [];
  credentials = [];
  resets = [];
  next_id = 0;
}

-- `db.get(VM, id)`
abbrev pub get_vm : ℕ → Db → Option Vm
get_vm id db = first (λ (v : Vm). v.id == id) db.vms

-- `db.get(Job, id)`
abbrev pub get_job : ℕ → Db → Option Job
get_job id db = first (λ (j : Job). j.id == id) db.jobs

-- The row of a VM, written back.
abbrev pub put_vm : Vm → Db → Db
put_vm vm db = record db { vms = adjust (λ (v : Vm). v.id == vm.id) (λ _. vm) db.vms }

abbrev pub put_job : Job → Db → Db
put_job job db = record db { jobs = adjust (λ (j : Job). j.id == job.id) (λ _. job) db.jobs }

-- `Job(type=..., status="queued", vm_id=..., meta=...)`, added
abbrev pub new_job : JobType → ℕ → Fields → ℕ → Db → Job
new_job type vm_id meta now db = record {
  id = db.next_id;
  type = type;
  status = queued;
  vm_id = some vm_id;
  meta = meta;
  error = none;
  created_at = now;
}

abbrev pub add_job : Job → Db → Db
add_job job db = record db { jobs = db.jobs ++ job ∷ []; next_id = db.next_id + 1 }
