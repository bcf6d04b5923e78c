-- ===== src/Worker/Recovery.antt =====
-- What happens to the jobs at a restart: `mark_orphaned_running_as_failed` of
-- backend/app/services/lifecycle.py and `requeue_queued_jobs` of backend/app/workers/inprocess.py.
pub mod Restart
use clusteration.Base.{
  ℕ, String, ◌<>◌, Bool, true, false, ◌&&◌, not, List, [], ◌∷◌, ◌++◌, Option, none, some, map,
  adjust, if◌then◌else◌, ◌==◌,
}
use clusteration.Base.Json.{Json, Fields, ℤ, pos, get, int, truthy, py_str}
use clusteration.Base.Exec.{other, Result, ok, err}
use clusteration.Entities.{
  Vm, VmStatus, Job, JobType, JobStatus, queued, create_vm, reinstall_vm, start_vm, stop_vm,
  reboot_vm, delete_vm, ssh_readiness_check, is_transient,
}
use clusteration.Database.{Db, get_vm, put_vm}
use clusteration.Worker.{Payload, World, plain_payload}

abbrev pub is_job_running : JobStatus → Bool
is_job_running JobStatus.running = true
is_job_running _ = false

abbrev pub is_job_queued : JobStatus → Bool
is_job_queued queued = true
is_job_queued _ = false

-- `str(job.meta.get("node") or vm.node)`
abbrev pub node_or_own : Json → String → String
node_or_own node own = if truthy node then py_str node else own

-- The VM that an interrupted job was cloning: it takes over the VMID that the job has noted.
unfoldable pub adopt : Job → Vm → Result Vm
unfolding get int truthy py_str
adopt job vm =
    let target = get "target_vmid" job.meta in
    if not (truthy target) then ok vm else elim vm.proxmox_vmid [
      | some _ ↦ ok vm
      | none ↦ elim (int target) [
        | some (pos n) ↦
            ok (record vm {
              proxmox_vmid = some n;
              node = node_or_own (get "node" job.meta) vm.node;
            })
        | _ ↦ err (other "ValueError")
      ]
    ]

abbrev pub interrupted : Job → Job
interrupted job = record job {
  status = JobStatus.failed;
  error = some "job interrompido por restart do serviço";
}

adopt_in : Job → Option Vm → Db → Result Db
unfolding adopt
adopt_in job none db = ok db
adopt_in job (some vm) db = elim (adopt job vm) [ ok vm' ↦ ok (put_vm vm' db) | err e ↦ err e ]

abbrev owner : Option ℕ → Db → Option Vm
owner none db = none
owner (some id) db = get_vm id db

-- What one job of the first loop does to the VMs.
adopt_one : Job → Db → Result Db
unfolding adopt_in
adopt_one job db = if is_job_running job.status then adopt_in job (owner job.vm_id db) db else ok db

-- An exception of the first loop is the result of the call.
abbrev go_on : (Db → Result Db) → Result Db → Result Db
go_on f (ok db) = f db
go_on f (err e) = err e

-- The first loop, over the jobs that were running.
adopt_all : List Job → Db → Result Db
unfolding adopt_one
adopt_all [] db = ok db
adopt_all (job ∷ jobs) db = go_on (adopt_all jobs) (adopt_one job db)

abbrev pub is_live : Option ℕ → Bool
is_live none = true
is_live (some _) = false

-- The second: a VM in a transient state becomes one in error.
unfoldable pub surface : Vm → Vm
surface vm =
    if is_transient vm.status && is_live vm.deleted_at
    then record vm { status = VmStatus.error }
    else vm

unfoldable pub mark_orphaned_running_as_failed : Db → Result Db
unfolding adopt_all surface
mark_orphaned_running_as_failed db =
    go_on
      (λ db'. ok (record db' {
        vms = map surface db'.vms;
        jobs = adjust (λ (j : Job). is_job_running j.status) interrupted db'.jobs;
      }))
      (adopt_all db.jobs db)

-- `job.type in (create_vm, reinstall_vm)`: the root password is not kept.
unfoldable pub needs_password : JobType → Bool
needs_password create_vm = true
needs_password reinstall_vm = true
needs_password _ = false

-- `job.type` as its text
unfoldable pub type_name : JobType → String
type_name create_vm = "create_vm"
type_name reinstall_vm = "reinstall_vm"
type_name start_vm = "start_vm"
type_name stop_vm = "stop_vm"
type_name reboot_vm = "reboot_vm"
type_name delete_vm = "delete_vm"
type_name ssh_readiness_check = "ssh_readiness_check"

abbrev abandoned : Job → Job
abandoned job = record job {
  status = JobStatus.failed;
  error = some (
      "job "
      <> type_name job.type
      <> " pendente não pode ser retomado porque a senha root não é persistida");
}

requeued : List Job → List Job
unfolding needs_password type_name
requeued = adjust (λ (j : Job). is_job_queued j.status && needs_password j.type) abandoned

payloads : List Job → List Payload
unfolding needs_password
payloads [] = []
payloads (job ∷ jobs) =
    let rest = payloads jobs in
    if is_job_queued job.status && not (needs_password job.type)
    then plain_payload job.type job.id job.vm_id ∷ rest
    else rest

unfoldable pub requeue_queued_jobs : {N : Type 0} → World N → World N
unfolding requeued payloads
requeue_queued_jobs w = record w {
  db = record w.db { jobs = requeued w.db.jobs };
  queue = w.queue ++ payloads w.db.jobs;
}
