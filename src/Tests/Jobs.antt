-- ===== src/Tests/Jobs.antt =====
-- Examples of the theorems on the jobs, the worker and the Proxmox client.
use clusteration.Lifecycle.Disk.{ensure_disk_size}
use clusteration.Lifecycle.Disk.Growth.{ensure_disk_size-grows}
use clusteration.Entities.{reinstall_vm}
use clusteration.Lifecycle.Provision.{reinstall_vm_job}
use clusteration.Lifecycle.Provision.Reinstall.{reinstall_vm_job-destroys_own_vmid}
use clusteration.Base.{arith, ◌+◌, ◌*◌, ◌<◌}
use clusteration.Base.Json.{num, pos}
use clusteration.Base.{ℕ, ◌≤◌, ◌≢◌, ◌≡◌, refl, ◌⊎◌, inr, ◌↔◌, List, [], ◌∷◌, All, none, some}
use clusteration.Base.Json.{str, obj, end, null, field, arr, item, nil, get, int}
use clusteration.Base.Exec.{proxmox, auth, ok, err, out_of_fuel}
use clusteration.Base.Exec.{◌>>◌}
use clusteration.Base.Exec.Then.{Post}
use clusteration.Entities.{
  Vm, Job, JobStatus, JobType, queued, create_vm, start_vm, delete_vm, VmStatus, stopped, starting,
  deleting,
}
use clusteration.Settings.{defaults}
use clusteration.Proxmox.{next_id, Outcome, Response, response}
use clusteration.Proxmox.Request.{request}
use clusteration.Proxmox.Retry.{Succeeds, request-ok_iff}
use clusteration.Proxmox.Retry.Refusal.{refusal, request_refused}
use clusteration.Proxmox.Trace.{Traced, traced}
use clusteration.Lifecycle.{Run}
use clusteration.Lifecycle.Rules.{clock_of}
use clusteration.Lifecycle.Destroy.{delete_vm_job}
use clusteration.Lifecycle.Destroy.Calls.{IsDestroyCall, delete_vm_job-destroys_own_vmid}
use clusteration.Lifecycle.Destroy.Outcome.{IsDeleted, delete_vm_job-outcome}
use clusteration.Lifecycle.Provision.{create_vm_job, record_clone, finish_clone}
use clusteration.Lifecycle.Tracked.{IsRecovered}
use clusteration.Lifecycle.Provision.Tracked.{finish_clone-IsRecovered}
use clusteration.Proxmox.Parse.{gib, disk_size_gb_from_resource}
use clusteration.Proxmox.Parse.Sizes.{disk_size_gb_from_resource-rounds_up}
use clusteration.Lifecycle.Provision.Calls.{IsAllowed}
use clusteration.Lifecycle.Provision.OneVm.{IsReading, create_vm_job-changes_one_vm}
use clusteration.Lifecycle.Power.{power_job, Endpoint, endpoint_of}
use clusteration.Lifecycle.Power.Calls.{IsPowerCall, power_job-acts_on_own_vmid}
use clusteration.Lifecycle.Power.Outcome.{power_job-outcome}
use clusteration.Worker.{Payload, World, plain_payload, dispatch, job_body, started}
use clusteration.Worker.Settles.{IsSettled, dispatch-settles}
use clusteration.Worker.Jobs.{job_body-Ends}
use clusteration.Tests.{
  Script, scripted, scripted_mono, data_of, status_of, task_done, a_vm, a_job, a_template, a_db,
}

-- A stopped VM is started: its node answers, the action begins, its task ends, and it has an address.
abbrev start_replies : List Outcome
start_replies = data_of (obj end) ∷ data_of (str "UPID:1") ∷ task_done ∷ []

abbrev start_world : World Script
start_world = record {
  db = a_db (a_vm stopped (some 105)) (a_job start_vm queued);
  queue = [];
  net = record { clock = 0; replies = start_replies };
}

abbrev start_payload : Payload
start_payload = plain_payload start_vm 3 (some 7)

dispatch-settles_example :
    IsSettled
      (a_job start_vm queued)
      (a_vm stopped (some 105))
      start_world
      (job_body scripted defaults [] start_vm start_payload (
        started scripted defaults [] (a_job start_vm queued) (a_vm stopped (some 105)) start_world))
      (dispatch scripted defaults [] start_payload start_world)
dispatch-settles_example =
    dispatch-settles scripted defaults [] start_payload (a_job start_vm queued)
      (a_vm stopped (some 105)) start_world refl refl

abbrev run_of : {N : Type 0} → Vm → JobType → N → Run N
run_of vm type net = record { vm = vm; job = a_job type JobStatus.running; saves = []; net = net }

abbrev start_run : Run Script
start_run =
    run_of (a_vm stopped (some 105)) start_vm (record { clock = 0; replies = start_replies })

job_body-Ends_example :
    ((job_body scripted defaults [] start_vm start_payload start_run).0 ≢ err out_of_fuel)
    × (clock_of scripted start_run
        ≤ clock_of scripted (job_body scripted defaults [] start_vm start_payload start_run).1)
job_body-Ends_example = job_body-Ends scripted_mono defaults [] start_vm start_payload start_run

abbrev start_endpoint : Endpoint
start_endpoint = record { action = "start"; transient = starting; final = VmStatus.running }

power_job-outcome_example :
    Post
      (λ _ r'.
        (r'.vm.status ≡ VmStatus.running)
        × ((rest : List (Vm × Job)) × (r'.saves ≡ (r'.vm, r'.job) ∷ rest)))
      (λ r'. (r'.vm.status ≡ starting) ⊎ (r'.vm.status ≡ VmStatus.running))
      (power_job scripted start_vm start_run)
unfolding endpoint_of
power_job-outcome_example =
    power_job-outcome scripted start_vm start_endpoint 105 start_run refl refl

abbrev traced_of : List Outcome → Traced Script
traced_of replies = record { inner = record { clock = 0; replies = replies }; calls = [] }

abbrev traced_start : Run (Traced Script)
traced_start = run_of (a_vm stopped (some 105)) start_vm (traced_of start_replies)

power_job-acts_on_own_vmid_example :
    ((power_job (traced scripted) start_vm traced_start).1.vm.proxmox_vmid ≡ some 105)
    × All (IsPowerCall start_vm 105) (power_job (traced scripted) start_vm traced_start).1.net.calls
power_job-acts_on_own_vmid_example =
    power_job-acts_on_own_vmid scripted start_vm 105 traced_start refl tt

-- A stopped VM is deleted: its node answers, it does not run, and its destruction ends.
abbrev delete_replies : List Outcome
delete_replies = data_of (obj end) ∷ data_of (obj end) ∷ data_of (str "UPID:2") ∷ task_done ∷ []

abbrev traced_delete : Run (Traced Script)
traced_delete = run_of (a_vm stopped (some 105)) delete_vm (traced_of delete_replies)

delete_vm_job-destroys_own_vmid_example :
    ((delete_vm_job (traced scripted) traced_delete).1.vm.proxmox_vmid ≡ some 105)
    × All (IsDestroyCall 105) (delete_vm_job (traced scripted) traced_delete).1.net.calls
delete_vm_job-destroys_own_vmid_example =
    delete_vm_job-destroys_own_vmid scripted 105 traced_delete refl tt

delete_vm_job-outcome_example :
    Post
      (λ _. IsDeleted)
      (λ r'. (r'.vm.status ≡ deleting) × (r'.vm.deleted_at ≡ none))
      (delete_vm_job (traced scripted) traced_delete)
delete_vm_job-outcome_example = delete_vm_job-outcome (traced scripted) traced_delete

abbrev traced_create : Run (Traced Script)
traced_create = run_of (a_vm VmStatus.creating none) create_vm (traced_of (data_of null ∷ []))

create_vm_job-changes_one_vm_example :
    (v : ℕ) × All
      (IsAllowed IsReading v)
      (create_vm_job
        (traced scripted)
        defaults
        (a_template ∷ [])
        "secret-password"
        traced_create).1.net.calls
create_vm_job-changes_one_vm_example =
    create_vm_job-changes_one_vm scripted defaults (a_template ∷ []) "secret-password" traced_create
      tt

-- The first attempt meets an overloaded server, the second is answered.
abbrev busy : Script
busy = record { clock = 0; replies = status_of 503 ∷ data_of (str "105") ∷ [] }

request-ok_iff_example :
    ((request scripted next_id busy).0 ≡ ok (str "105"))
    ↔ Succeeds scripted next_id (str "105") 4 0 busy
request-ok_iff_example = request-ok_iff scripted next_id (str "105") busy

abbrev forbidden : Response
forbidden = record { status_code = 403; json = none; text = "no permission" }

request_refused_example :
    request scripted next_id (record { clock = 0; replies = response forbidden ∷ [] })
    ≡ (err (proxmox auth (refusal next_id forbidden)), record { clock = 10; replies = [] })
request_refused_example =
    request_refused scripted next_id (record { clock = 0; replies = response forbidden ∷ [] })
      forbidden refl (inr refl)

abbrev cloning_run : Run Script
cloning_run =
    run_of (a_vm VmStatus.creating none) create_vm
      (record { clock = 0; replies = task_done ∷ data_of null ∷ [] })

finish_clone-IsRecovered_example :
    All
      (IsRecovered 105)
      ((record_clone scripted defaults "create" a_template 105 (str "UPID:3")
          >> finish_clone scripted defaults "create" "secret-password" 105 (str "UPID:3"))
        cloning_run).1.saves
finish_clone-IsRecovered_example =
    finish_clone-IsRecovered scripted defaults "create" 105 a_template "secret-password"
      (str "UPID:3") cloning_run (omega arith) refl refl

-- A disk of 3.5 GiB.
disk_size_gb_from_resource-rounds_up_example :
    (gb : ℕ) × (disk_size_gb_from_resource (some (field "maxdisk" (num (pos 3758096384)) end))
      ≡ some gb)
    × (3758096384 ≤ gb * gib)
    × (gb * gib < 3758096384 + gib)
unfolding get int
disk_size_gb_from_resource-rounds_up_example =
    disk_size_gb_from_resource-rounds_up (field "maxdisk" (num (pos 3758096384)) end) 3758096383
      refl (omega arith)

abbrev traced_reinstall : Run (Traced Script)
traced_reinstall = run_of (a_vm stopped (some 105)) reinstall_vm (traced_of delete_replies)

reinstall_vm_job-destroys_own_vmid_example :
    (v : ℕ) × All
      (IsAllowed (IsDestroyCall 105) v)
      (reinstall_vm_job
        (traced scripted)
        defaults
        (a_template ∷ [])
        "secret-password"
        none
        traced_reinstall).1.net.calls
reinstall_vm_job-destroys_own_vmid_example =
    reinstall_vm_job-destroys_own_vmid scripted defaults (a_template ∷ []) 105 "secret-password"
      none traced_reinstall refl tt

-- The cluster says that the disk has 3.5 GiB.
abbrev disk_run : Run Script
disk_run = run_of (a_vm VmStatus.provisioning (some 105)) create_vm (record {
  clock = 0;
  replies =
      data_of (
        arr (
          item (obj (field "vmid" (num (pos 105)) (field "maxdisk" (num (pos 3758096384)) end)))
            nil))
      ∷ [];
})

ensure_disk_size-grows_example : 12 ≤ (ensure_disk_size scripted "create" 105 disk_run).1.vm.disk_gb
ensure_disk_size-grows_example = ensure_disk_size-grows scripted "create" 105 disk_run
