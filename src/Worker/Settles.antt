-- ===== src/Worker/Settles.antt =====
-- How a job that the worker takes ends in the database: `dispatch` of backend/app/workers/inprocess.py.
use mathlib.Core.Path.{subst}
use clusteration.Base.{
  ℕ, ◌==◌, ◌≡◌, refl, sym, ◌∙◌, Bool, true, false, List, [], ◌∷◌, ◌++◌, Option, none, some,
  if◌then◌else◌, ap, append-nil,
}
use clusteration.Base.Exec.{Exc, Result, ok, err, try_except, pure, ◌>>=◌, ◌>>◌, modify}
use clusteration.Entities.{
  Vm, Job, JobStatus, success, JobType, Template, VmStatus, ssh_readiness_check,
}
use clusteration.Settings.{Settings}
use clusteration.Database.{get_vm, get_job}
use clusteration.Database.Lookup.{first-key, first-adjust, first-append}
use clusteration.Proxmox.{Transport}
use clusteration.Lifecycle.{Run, commit, set_vm}
use clusteration.Lifecycle.Rules.{SameRows}
use clusteration.Worker.{
  Payload, World, plain_payload, sanitize_job_error, wants_ssh_check, job_body, job_failed,
  set_job_status, attempt_job, dispatch, vm_of, follow_up, with_vm, dispatch_found, saved,
  after_attempt, started, enqueue,
}
use clusteration.Worker.Jobs.{job_body-SameRows}

-- What the rows are has been written.
abbrev IsCommitted : {N : Type 0} → Run N → Type 0
IsCommitted r = (rest : List (Vm × Job)) × (r.saves ≡ (r.vm, r.job) ∷ rest)

-- The rows of a job that has gone well, and of one that has failed with `e`.
abbrev IsSuccess : {N : Type 0} → Run N → Result Bool × Run N → Type 0
IsSuccess r (x, r') =
    (x ≡ ok true) × (r'.job ≡ record r.job { status = success }) × (r'.vm ≡ r.vm) × IsCommitted r'

abbrev IsFailure : {N : Type 0} → Exc → Run N → Result Bool × Run N → Type 0
IsFailure e r (x, r') =
    (x ≡ ok false)
    × (r'.job ≡ record r.job { status = JobStatus.failed; error = some (sanitize_job_error e) })
    × (r'.vm ≡ record r.vm { status = VmStatus.error })
    × IsCommitted r'

-- How `attempt_job` ends, by how the body of the job does.
abbrev Outcome : {N : Type 0} → Result {0} Unit × Run N → Result Bool × Run N → Type 0
Outcome (ok _, r) out = IsSuccess r out
Outcome (err e, r) out = IsFailure e r out

after_body :
    {N : Type 0} (x : Result {0} Unit) (r s : Run N)
    → Outcome
        (x, r)
        (try_except
          (do (λ _. (x, r)); set_job_status success; commit; pure true)
          (λ e. do job_failed e; pure false)
          s)
unfolding try_except job_failed set_vm commit modify ◌>>=◌
after_body (ok _) r s = (refl, refl, refl, (r.saves, refl))
after_body (err e) r s = (refl, refl, refl, (r.saves, refl))

module _ {N : Type 0} (t : Transport N) (settings : Settings) (templates : List Template) where
  attempt_job-Outcome :
      (type : JobType) (p : Payload) (r : Run N)
      → Outcome (job_body t settings templates type p r) (attempt_job t settings templates type p r)
  unfolding attempt_job try_except ◌>>=◌ modify
  attempt_job-Outcome type p r =
      let (x, r') = job_body t settings templates type p r in after_body x r' r

-- What is put in the queue behind a job that has gone well: an SSH check, with the next id.
abbrev pub follow_ups : {N : Type 0} → JobType → Vm → World N → List Payload
follow_ups type vm w =
    if wants_ssh_check type
    then plain_payload ssh_readiness_check w.db.next_id (some vm.id) ∷ []
    else []

-- What is in the database of `w'` and in its queue once the job has been run from `w`, by how its body has
-- ended and by the rows that the body has left.
abbrev pub IsSettled :
    {N : Type 0} → Job → Vm → World N → Result {0} Unit × Run N → World N → Type 0
IsSettled job vm w (ok _, r) w' =
    (get_job job.id w'.db ≡ some (record r.job { status = success }))
    × (get_vm vm.id w'.db ≡ some r.vm)
    × (w'.queue ≡ w.queue ++ follow_ups job.type vm w)
IsSettled job vm w (err e, r) w' =
    (get_job job.id w'.db
      ≡ some (record r.job { status = JobStatus.failed; error = some (sanitize_job_error e) }))
    × (get_vm vm.id w'.db ≡ some (record r.vm { status = VmStatus.error }))
    × (w'.queue ≡ w.queue)

module _ {N : Type 0} (t : Transport N) (settings : Settings) (templates : List Template) where
  job_found :
      (job : Job) (r : Run N) (w : World N)
      → get_job job.id w.db ≡ some job
      → r.job.id ≡ job.id
      → get_job job.id (saved t settings templates r w).db ≡ some r.job
  job_found job r w found same =
      first-adjust (λ (j : Job). j.id) job.id w.db.jobs job r.job found same

  vm_found :
      (vm : Vm) (r : Run N) (w : World N)
      → get_vm vm.id w.db ≡ some vm
      → r.vm.id ≡ vm.id
      → get_vm vm.id (saved t settings templates r w).db ≡ some r.vm
  vm_found vm r w found same = first-adjust (λ (v : Vm). v.id) vm.id w.db.vms vm r.vm found same

  followed :
      (job : Job) (vm : Vm) (r : Run N) (w : World N) (wants : Bool)
      → (get_job job.id w.db ≡ some job) × (get_vm vm.id w.db ≡ some vm)
      → (r.job.id ≡ job.id) × (r.vm.id ≡ vm.id)
      → let w' = follow_up t settings templates wants vm.id (saved t settings templates r w) in
        (get_job job.id w'.db ≡ some r.job)
        × (get_vm vm.id w'.db ≡ some r.vm)
        × (w'.queue
            ≡ w.queue
              ++ (if wants
                  then plain_payload ssh_readiness_check w.db.next_id (some vm.id) ∷ []
                  else []))
  unfolding enqueue
  followed job vm r w true (fj, fv) (sj, sv) = (
    first-append (λ (j : Job). j.id == job.id) _ _ r.job (job_found job r w fj sj),
    vm_found vm r w fv sv,
    refl,
  )
  followed job vm r w false (fj, fv) (sj, sv) =
      (job_found job r w fj sj, vm_found vm r w fv sv, sym (append-nil w.queue))

  IsSettled-by :
      (job : Job) (vm : Vm) (w : World N) (body : Result {0} Unit × Run N)
      (out : Result Bool × Run N)
      → Outcome body out
      → SameRows (started t settings templates job vm w).job vm body.1
      → (get_job job.id w.db ≡ some job) × (get_vm vm.id w.db ≡ some vm)
      → IsSettled job vm w body
          (after_attempt t settings templates job vm out.0 (saved t settings templates out.1 w))
  unfolding wants_ssh_check SameRows
  IsSettled-by job vm w (ok _, r) (x, r') (well, same_job, same_vm, c) rows found =
      let ids : (r'.job.id ≡ job.id) × (r'.vm.id ≡ vm.id) =
        (ap (λ (j : Job). j.id) same_job ∙ rows.0, ap (λ (v : Vm). v.id) same_vm ∙ rows.4.0) in
      let (fj, fv, q) = followed job vm r' w (wants_ssh_check job.type) found ids in
      rw well (fj ∙ ap some same_job, fv ∙ ap some same_vm, q)
  IsSettled-by job vm w (err e, r) (x, r') (failed, same_job, same_vm, c) rows found =
      let ids : (r'.job.id ≡ job.id) × (r'.vm.id ≡ vm.id) =
        (ap (λ (j : Job). j.id) same_job ∙ rows.0, ap (λ (v : Vm). v.id) same_vm ∙ rows.4.0) in
      rw failed (
        job_found job r' w found.0 ids.0 ∙ ap some same_job,
        vm_found vm r' w found.1 ids.1 ∙ ap some same_vm,
        refl,
      )

  with_vm-settles :
      (p : Payload) (job : Job) (vm : Vm) (w : World N)
      → (get_job job.id w.db ≡ some job) × (get_vm vm.id w.db ≡ some vm)
      → IsSettled job vm w
          (job_body t settings templates job.type p (started t settings templates job vm w))
          (with_vm t settings templates p job vm w)
  unfolding with_vm SameRows
  with_vm-settles p job vm w found =
      let r = started t settings templates job vm w in
      IsSettled-by job vm w (job_body t settings templates job.type p r)
        (attempt_job t settings templates job.type p r)
        (attempt_job-Outcome t settings templates job.type p r)
        ((job_body-SameRows t settings templates r.job vm job.type p).at r
          (refl, refl, refl, refl, (refl, refl, refl, refl, refl)))
        found

  job_of_id :
      (id : ℕ) (job : Job) (w : World N)
      → get_job id w.db ≡ some job
      → get_job job.id w.db ≡ some job
  job_of_id id job w h =
      subst (λ k. get_job k w.db ≡ some job)
        (sym (first-key (λ (j : Job). j.id) id w.db.jobs job h)) h

  vm_of_id :
      (id : Option ℕ) (vm : Vm) (w : World N)
      → vm_of t settings templates id w.db ≡ some vm
      → get_vm vm.id w.db ≡ some vm
  vm_of_id none vm w h = cc h
  vm_of_id (some id) vm w h =
      subst (λ k. get_vm k w.db ≡ some vm) (sym (first-key (λ (v : Vm). v.id) id w.db.vms vm h)) h

  -- The worker settles every job that it takes as its body has ended: where the payload's job and VM are in
  -- the database and the body returns, the rows are those that it has left, with the job in `success`, and
  -- an SSH check is put in the queue exactly if the type asks for one; where the body raises, the rows are
  -- those that it has left, with the job in `failed` with the text of that exception and the VM in
  -- `error`, and the queue is as it was.
  pub dispatch-settles :
      (p : Payload) (job : Job) (vm : Vm) (w : World N)
      → get_job p.job_id w.db ≡ some job
      → vm_of t settings templates p.vm_id w.db ≡ some vm
      → IsSettled job vm w
          (job_body t settings templates job.type p (started t settings templates job vm w))
          (dispatch t settings templates p w)
  unfolding dispatch dispatch_found
  dispatch-settles p job vm w fj fv =
      rw (fj, fv)
        (with_vm-settles p job vm w (job_of_id p.job_id job w fj, vm_of_id p.vm_id vm w fv))
