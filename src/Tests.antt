-- ===== src/Tests.antt =====
-- Examples of the theorems, at a Proxmox server that answers by a script.
pub mod Jobs
pub mod Panel
pub mod Bridge
pub mod Login
pub mod Repair
pub mod Proxy
pub mod Upkeep
use clusteration.Base.{
  ℕ, ◌+◌, ◌/◌, ◌≤◌, ◌≡◌, refl, String, Bool, true, false, List, [], ◌∷◌, Option, none, some, arith,
}
use clusteration.Base.Json.{Json, Fields, obj, str, field, end}
use clusteration.Entities.{Vm, Job, JobStatus, JobType, queued, VmStatus, SshStatus, Template}
use clusteration.Database.{Db, empty_db}
use clusteration.Proxmox.{Call, Outcome, timed_out, response, Transport, IsMonotonic}

pub record Script : Type 0 where
  pub clock : ℕ
  pub replies : List Outcome

abbrev answer : List Outcome → Outcome
answer [] = timed_out
answer (o ∷ os) = o

abbrev others : List Outcome → List Outcome
others [] = []
others (o ∷ os) = os

abbrev pub scripted : Transport Script
scripted = record {
  send = λ c s. (answer s.replies, record { clock = s.clock + 10; replies = others s.replies });
  sleep = λ d s. record s { clock = s.clock + d };
  now = λ s. s.clock;
  iso_now = λ s. "2026-06-20T00:00:00Z";
  utcnow = λ s. s.clock / 1000;
  open_terminal = λ ip s. (true, record s { clock = s.clock + 10 });
}

pub scripted_mono : IsMonotonic scripted
scripted_mono = record {
  now-sleep = λ d n. omega arith;
  now-send = λ c n. omega arith;
  now-open_terminal = λ ip n. omega arith;
}

-- A reply with this `data`.
abbrev pub data_of : Json → Outcome
data_of j =
    response (record { status_code = 200; json = some (obj (field "data" j end)); text = "" })

-- A reply of this status without a body.
abbrev pub status_of : ℕ → Outcome
status_of code = response (record { status_code = code; json = none; text = "" })

abbrev pub task_done : Outcome
task_done = data_of (obj (field "status" (str "stopped") (field "exitstatus" (str "OK") end)))

abbrev pub a_vm : VmStatus → Option ℕ → Vm
a_vm status vmid = record {
  id = 7;
  hostname = "web-1";
  template = "debian";
  cpu = 1;
  memory_mb = 2048;
  disk_gb = 12;
  proxmox_vmid = vmid;
  node = "pve1";
  status = status;
  ssh_status = SshStatus.pending;
  ip_address = none;
  deleted_at = none;
  created_at = 0;
}

abbrev pub a_job : JobType → JobStatus → Job
a_job type status = record {
  id = 3;
  type = type;
  status = status;
  vm_id = some 7;
  meta = end;
  error = none;
  created_at = 0;
}

abbrev pub a_template : Template
a_template = record {
  id = 1;
  name = "Debian 12";
  os = "debian";
  proxmox_template_vmid = 9000;
  defaults = end;
  created_at = 0;
}

abbrev pub a_db : Vm → Job → Db
a_db vm job = record empty_db { vms = vm ∷ []; jobs = job ∷ []; next_id = 8 }
