-- ===== src/Api/Lists.antt =====
-- The requests of backend/app/api/routes.py that list rows and show a VM. The database leaves the
-- order of rows of the same time open, and may choose another in each query: they stand here in one that it
-- may choose. `updated_at` is not modelled.
pub mod Errors
use clusteration.Base.{
  ℕ, String, Bool, true, false, not, ◌&&◌, ◌||◌, List, [], ◌∷◌, map, keep, first, any, take, drop,
  length, Option, none, some, ◌==◌, ◌=ₛ◌, ltb, max, min, if◌then◌else◌,
}
use clusteration.Base.Json.{Json, Fields, ℤ, pos, negsuc, num, get, int, truthy, bool}
use clusteration.Base.Exec.{Exc, other, app, Result, ok, err, Exec, pure, raise, gets, ◌>>=◌}
use clusteration.Base.Text.{str_leb}
use clusteration.Entities.{
  Vm, VmStatus, SshStatus, Job, JobType, JobStatus, Template, AuditEvent, is_running, is_ready,
}
use clusteration.Settings.{Settings, VmSize, vm_sizes}
use clusteration.Database.{Db, get_vm, get_job}
use clusteration.Worker.{World}
use clusteration.Api.{get_live_vm}
use clusteration.Api.Actions.{VmActions, actions_of}

module _ {A : Type 0} (before : A → A → Bool) where
  -- A row goes behind the rows that the query puts before it.
  unfoldable pub insert_row : A → List A → List A
  insert_row x [] = x ∷ []
  insert_row x (y ∷ ys) = if before x y then x ∷ y ∷ ys else y ∷ insert_row x ys

  -- `order_by`
  unfoldable pub order_rows : List A → List A
  unfolding insert_row
  order_rows [] = []
  order_rows (x ∷ xs) = insert_row x (order_rows xs)

-- `order_by(created_at.desc())`, by the column of the rows, in one of the orders that this leaves open
unfoldable pub newest_first : {A : Type 0} → (A → ℕ) → List A → List A
unfolding order_rows
newest_first created_at = order_rows (λ x y. not (ltb (created_at x) (created_at y)))

-- `limit = max(1, min(limit, bound))`
unfoldable pub clamp_limit : ℕ → ℤ → ℕ
clamp_limit bound (pos n) = max 1 (min n bound)
clamp_limit bound (negsuc n) = 1

-- `offset = max(0, offset)`
unfoldable pub clamp_offset : ℤ → ℕ
clamp_offset (pos n) = n
clamp_offset (negsuc n) = 0

-- `limit(...).offset(...)`
abbrev pub page : {A : Type 0} → ℕ → ℕ → List A → List A
page limit offset rows = take limit (drop offset rows)

-- `list_audit`; an event is shown with all its columns.
unfoldable pub list_audit : Db → ℤ → ℤ → List AuditEvent
unfolding newest_first clamp_limit clamp_offset
list_audit db limit offset =
    page (clamp_limit 500 limit) (clamp_offset offset)
      (newest_first (λ (e : AuditEvent). e.created_at) db.audit_events)

pub record JobRow : Type 0 where
  pub job : Job
  pub vm_hostname : Option String

hostname_of : Option Vm → Option String
hostname_of none = none
hostname_of (some vm) = some vm.hostname

job_row : Db → Job → JobRow
unfolding hostname_of
job_row db job = record {
  job = job;
  vm_hostname = elim job.vm_id [ none ↦ none | some id ↦ hostname_of (get_vm id db) ];
}

-- `list_jobs`
unfoldable pub list_jobs : Db → ℤ → ℤ → List JobRow
unfolding newest_first clamp_limit clamp_offset job_row
list_jobs db limit offset = map (job_row db) (
    page (clamp_limit 200 limit) (clamp_offset offset)
      (newest_first (λ (j : Job). j.created_at) db.jobs))

pub record VmOut : Type 0 where
  pub vm : Vm
  pub actions : VmActions
  pub has_proxmox_vm : Bool
  pub last_error : Option String
  pub last_error_at : Option ℕ
  pub last_error_job_type : Option JobType

-- Whether an error of the VM is shown.
unfoldable pub shows_error : Vm → Bool
shows_error vm =
    (elim vm.status [ VmStatus.error ↦ true | _ ↦ false ])
    || (is_running vm.status && not (is_ready vm.ssh_status))

abbrev shown : {A : Type 0} → Bool → Option A → Option A
shown b x = if b then x else none

error_text : Option Job → Option String
error_text none = none
error_text (some job) = job.error

error_time : Option Job → Option ℕ
error_time none = none
error_time (some job) = some job.created_at

error_type : Option Job → Option JobType
error_type none = none
error_type (some job) = some job.type

-- `serialize_vm`, with the job of the last error
unfoldable pub serialize_vm : Vm → Option Job → VmOut
unfolding actions_of shows_error error_text error_time error_type
serialize_vm vm last_error = record {
  vm = vm;
  actions = actions_of vm;
  has_proxmox_vm = elim vm.proxmox_vmid [ none ↦ false | some _ ↦ true ];
  last_error = shown (shows_error vm) (error_text last_error);
  last_error_at = shown (shows_error vm) (error_time last_error);
  last_error_job_type = shown (shows_error vm) (error_type last_error);
}

-- The dict of `list_vms`, from the id of a VM to a job.
pub record ErrorOf : Type 0 where
  pub vm_id : ℕ
  pub job : Job

-- `errors.get(vm_id)`
unfoldable pub error_of : ℕ → List ErrorOf → Option Job
error_of id [] = none
error_of id (e ∷ es) = if e.vm_id == id then some e.job else error_of id es

-- `errors.setdefault(vm_id, job)`
unfoldable pub set_default_error : ℕ → Job → List ErrorOf → List ErrorOf
set_default_error id job [] = record { vm_id = id; job = job } ∷ []
set_default_error id job (e ∷ es) =
    if e.vm_id == id then e ∷ es else e ∷ set_default_error id job es

-- The loop over the jobs with an error.
unfoldable pub collect_errors : List Job → List ErrorOf → List ErrorOf
unfolding set_default_error
collect_errors [] errors = errors
collect_errors (job ∷ jobs) errors =
    collect_errors jobs
      (elim job.vm_id [ none ↦ errors | some id ↦ set_default_error id job errors ])

abbrev pub is_live_vm : Vm → Bool
is_live_vm vm = elim vm.deleted_at [ none ↦ true | some _ ↦ false ]

abbrev pub has_error : Job → Bool
has_error job = elim job.error [ none ↦ false | some _ ↦ true ]

-- `Job.vm_id.in_(ids)`
abbrev pub is_job_of_any : List Vm → Job → Bool
is_job_of_any vms job = elim job.vm_id [ none ↦ false | some id ↦ any (λ (v : Vm). v.id == id) vms ]

unfoldable pub error_jobs : Db → List Vm → List Job
unfolding newest_first
error_jobs db vms =
    newest_first (λ (j : Job). j.created_at)
      (keep (λ (j : Job). is_job_of_any vms j && has_error j) db.jobs)

unfoldable pub live_vms : Db → List Vm
unfolding newest_first
live_vms db = newest_first (λ (v : Vm). v.created_at) (keep is_live_vm db.vms)

-- `list_vms`
unfoldable pub list_vms : Db → List VmOut
unfolding live_vms error_jobs collect_errors error_of serialize_vm
list_vms db =
    let vms = live_vms db in
    let errors = collect_errors (error_jobs db vms) [] in
    map (λ (v : Vm). serialize_vm v (error_of v.id errors)) vms

pub record TemplateRow : Type 0 where
  pub name : String
  pub os : String
  pub enabled : Bool
  pub defaults : Fields
  pub min_disk_gb : ℤ

-- `value is not False`
abbrev is_not_false : Json → Bool
is_not_false (bool false) = false
is_not_false _ = true

template_row : Template → Option ℤ → Result TemplateRow
unfolding get
template_row t none = err (other "ValueError")
template_row t (some gb) = ok (record {
  name = t.name;
  os = t.os;
  enabled = is_not_false (get "enabled" t.defaults);
  defaults = t.defaults;
  min_disk_gb = gb;
})

-- `int(defaults.get("min_disk_gb") or 0)`
abbrev min_disk : Template → Option ℤ
unfolding get truthy int
min_disk t =
    int
      (if truthy (get "min_disk_gb" t.defaults) then get "min_disk_gb" t.defaults else num (pos 0))

then_row : Result TemplateRow → Result (List TemplateRow) → Result (List TemplateRow)
then_row (err e) rest = err e
then_row (ok row) (err e) = err e
then_row (ok row) (ok rows) = ok (row ∷ rows)

template_rows : List Template → Result (List TemplateRow)
unfolding template_row then_row min_disk
template_rows [] = ok []
template_rows (t ∷ ts) = then_row (template_row t (min_disk t)) (template_rows ts)

-- `list_templates`
list_templates : Db → Result (List TemplateRow)
unfolding template_rows order_rows str_leb
list_templates db = template_rows (order_rows (λ (x y : Template). str_leb x.os y.os) db.templates)

module _ {N : Type 0} where
  -- `GET /vms/{vm_id}`
  show_vm : ℕ → Exec (World N) VmOut
  unfolding get_live_vm serialize_vm
  show_vm id = do vm ← get_live_vm id; pure (serialize_vm vm none)

  job_or_404 : Option Job → Exec (World N) Job
  job_or_404 none = raise (app "VALIDATION_ERROR" "job não encontrado" 404)
  job_or_404 (some job) = pure job

  -- `GET /jobs/{job_id}`
  show_job : ℕ → Exec (World N) Job
  unfolding job_or_404
  show_job id = do found ← gets (λ w. get_job id w.db); job_or_404 found
