-- ===== src/Worker/Recovery/Restart.antt =====
-- What a restart of the service leaves behind.
use clusteration.Base.{
  ◌≡◌, refl, ap, ◌∙◌, false, ◌&&◌, List, [], ◌∷◌, ◌++◌, map, keep, adjust, All, Option, none, some,
  arith,
}
use clusteration.Base.Exec.{Result, ok, err}
use clusteration.Entities.{Vm, Job, is_transient}
use clusteration.Database.{Db}
use clusteration.Worker.{Payload, World, plain_payload}
use clusteration.Worker.Recovery.{
  is_job_running, is_job_queued, is_live, interrupted, surface, adopt_in, adopt_one, adopt_all,
  go_on, owner, needs_password, mark_orphaned_running_as_failed, requeued, payloads,
  requeue_queued_jobs,
}

adopt_in-jobs :
    (job : Job) (vm : Option Vm) (db db' : Db) → adopt_in job vm db ≡ ok db' → db'.jobs ≡ db.jobs
unfolding adopt_in
adopt_in-jobs job none db db' h = cc h
adopt_in-jobs job (some vm) db db' h = ground arith

adopt_one-jobs : (job : Job) (db db' : Db) → adopt_one job db ≡ ok db' → db'.jobs ≡ db.jobs
unfolding adopt_one
adopt_one-jobs job db db' h = ground (arith, adopt_in-jobs job (owner job.vm_id db) db db')

go_on-ok :
    (f : Db → Result Db) (r : Result Db) (db' : Db)
    → go_on f r ≡ ok db'
    → (db : Db) × (r ≡ ok db) × (f db ≡ ok db')
go_on-ok f (ok db) db' h = (db, refl, h)
go_on-ok f (err e) db' h = cc h

-- The first loop leaves the jobs as they are.
adopt_all-jobs : (jobs : List Job) (db db' : Db) → adopt_all jobs db ≡ ok db' → db'.jobs ≡ db.jobs
unfolding adopt_all
adopt_all-jobs [] db db' h = cc h
adopt_all-jobs (job ∷ jobs) db db' h =
    let (db1, one, rest) = go_on-ok (adopt_all jobs) (adopt_one job db) db' h in
    adopt_all-jobs jobs db1 db' rest ∙ adopt_one-jobs job db db1 one

none_running :
    (jobs : List Job)
    → All
        (λ (j : Job). is_job_running j.status ≡ false)
        (adjust (λ (j : Job). is_job_running j.status) interrupted jobs)
none_running [] = tt
none_running (j ∷ jobs) = (ground arith, none_running jobs)

none_transient :
    (vms : List Vm)
    → All (λ (v : Vm). (is_transient v.status && is_live v.deleted_at) ≡ false) (map surface vms)
unfolding surface
none_transient [] = tt
none_transient (v ∷ vms) = (ground arith, none_transient vms)

-- Where the restart goes through, every job that was running has failed and every other job is as it
-- was; no job is left running, and no VM that is not deleted is left in a transient state.
pub mark_orphaned-surfaces :
    (db db' : Db)
    → mark_orphaned_running_as_failed db ≡ ok db'
    → (db'.jobs ≡ adjust (λ (j : Job). is_job_running j.status) interrupted db.jobs)
      × All (λ (j : Job). is_job_running j.status ≡ false) db'.jobs
      × All (λ (v : Vm). (is_transient v.status && is_live v.deleted_at) ≡ false) db'.vms
unfolding mark_orphaned_running_as_failed
mark_orphaned-surfaces db db' h =
    let (db1, loop, done) = go_on-ok _ (adopt_all db.jobs db) db' h in
    let same : db1.jobs ≡ db.jobs = adopt_all-jobs db.jobs db db1 loop in
    let jobs : db'.jobs ≡ adjust (λ (j : Job). is_job_running j.status) interrupted db1.jobs =
      cc done in
    let vms : db'.vms ≡ map surface db1.vms = cc done in
    (
      jobs ∙ ap (adjust (λ (j : Job). is_job_running j.status) interrupted) same,
      rw jobs (none_running db1.jobs),
      rw vms (none_transient db1.vms),
    )

abbrev pub payload_of : Job → Payload
payload_of job = plain_payload job.type job.id job.vm_id

payloads_of :
    (jobs : List Job)
    → payloads jobs ≡ map payload_of (keep (λ (j : Job). is_job_queued j.status) (requeued jobs))
unfolding payloads requeued
payloads_of [] = refl
payloads_of (job ∷ jobs) = ground (arith, payloads_of jobs)

none_needs :
    (jobs : List Job)
    → All (λ (j : Job). (is_job_queued j.status && needs_password j.type) ≡ false) (requeued jobs)
unfolding requeued needs_password
none_needs [] = tt
none_needs (job ∷ jobs) = (ground arith, none_needs jobs)

-- After a restart the queue has the payload of every job that the database still has as queued, in
-- the order of the jobs, behind what it had; and none of these jobs needs a password.
pub requeue_complete :
    {N : Type 0} (w : World N)
    → let w' = requeue_queued_jobs w in
      (w'.queue ≡ w.queue ++ map payload_of (keep (λ (j : Job). is_job_queued j.status) w'.db.jobs))
      × All (λ (j : Job). (is_job_queued j.status && needs_password j.type) ≡ false) w'.db.jobs
unfolding requeue_queued_jobs
requeue_complete w = (ap (λ ps. w.queue ++ ps) (payloads_of w.db.jobs), none_needs w.db.jobs)

requeued-running :
    (jobs : List Job)
    → All (λ (j : Job). is_job_running j.status ≡ false) jobs
    → All (λ (j : Job). is_job_running j.status ≡ false) (requeued jobs)
unfolding requeued
requeued-running [] h = tt
requeued-running (j ∷ jobs) (h, hs) = (ground arith, requeued-running jobs hs)

-- The requeueing starts no job, and leaves the VMs as they are.
pub requeue_starts_none :
    {N : Type 0} (w : World N)
    → All (λ (j : Job). is_job_running j.status ≡ false) w.db.jobs
    → All (λ (j : Job). is_job_running j.status ≡ false) (requeue_queued_jobs w).db.jobs
      × ((requeue_queued_jobs w).db.vms ≡ w.db.vms)
unfolding requeue_queued_jobs
requeue_starts_none w h = (requeued-running w.db.jobs h, refl)
