-- ===== src/Tests/Upkeep.antt =====
-- Examples of the theorems on the start, the backups and the lists.
use clusteration.Base.{
  ℕ, ◌≤◌, ◌≡◌, refl, String, Bool, ◌&&◌, any, true, false, List, [], ◌∷◌, map, length, first, All,
  none, some, ◌=ₛ◌, ◌==◌, arith,
}
use clusteration.Base.Json.{end}
use clusteration.Base.Exec.{ok}
use clusteration.Entities.{Vm, VmStatus, Job, JobStatus, start_vm, AuditEvent}
use clusteration.Settings.{defaults}
use clusteration.Readiness.{MakeUrl}
use clusteration.Database.{Db, empty_db}
use clusteration.Worker.{World}
use clusteration.Startup.{lifespan}
use clusteration.Startup.Templates.{SeedItem, seed, has_os, seed_templates}
use clusteration.Startup.Templates.Seeded.{IsSeeded, seed_templates-seeds}
use clusteration.Backup.{System, is_snapshot, sorted, snapshots, outdated, has, rotate}
use clusteration.Backup.Rotation.{AreOlder}
use clusteration.Backup.Rotation.Newest.{newest_snapshots, rotate-keeps_newest}
use clusteration.Api.Lists.{list_vms, live_vms, error_jobs, serialize_vm}
use clusteration.Api.Lists.Errors.{IsNewestFirst, is_job_of, list_vms-newest_errors}
use clusteration.Tests.{Script, scripted, a_vm, a_job, a_db}

abbrev sqlite_url : MakeUrl
sqlite_url url =
    some (record { backend = "sqlite"; database = some "/data/vmpanel.db"; host = none })

abbrev stopped_world : World Script
stopped_world = record {
  db = a_db (a_vm VmStatus.starting (some 105)) (a_job start_vm JobStatus.running);
  queue = [];
  net = record { clock = 5_000; replies = [] };
}

abbrev served_world : World Script
unfolding lifespan
served_world = (lifespan sqlite_url defaults 5 scripted 1 stopped_world).1

seed_templates-seeds_example :
    All
      (λ (i : SeedItem). IsSeeded defaults 5 i (seed_templates defaults 5 empty_db))
      (seed defaults)
    × ((o : String)
        → All (λ (i : SeedItem). (i.os =ₛ o) ≡ false) (seed defaults)
        → first (has_os o) (seed_templates defaults 5 empty_db).templates ≡ none)
seed_templates-seeds_example = seed_templates-seeds defaults 5 empty_db

abbrev a_system : System
a_system = record {
  stamp = λ now. "20260101-000000";
  copy = λ dest files. (ok tt, dest ∷ files);
  removes = λ name. true;
  exists = λ path. true;
}

abbrev backup_files : List String
backup_files =
    "vmpanel-20260103-000000.db" ∷ "notes.txt" ∷ "vmpanel-20260101-000000.db"
    ∷ "vmpanel-20260102-000000.db" ∷ []

rotate_runs :
    rotate a_system 2 backup_files
    ≡ "vmpanel-20260103-000000.db" ∷ "notes.txt" ∷ "vmpanel-20260102-000000.db" ∷ []
unfolding rotate
rotate_runs = refl

rotate-keeps_newest_example :
    ((y : String)
      → has y (snapshots (rotate a_system 2 backup_files))
        ≡ has y (newest_snapshots 2 backup_files))
    × (length (newest_snapshots 2 backup_files) ≤ 2)
    × AreOlder (outdated 2 (sorted (snapshots backup_files))) (newest_snapshots 2 backup_files)
    × ((y : String)
        → is_snapshot y ≡ false
        → has y (rotate a_system 2 backup_files) ≡ has y backup_files)
rotate-keeps_newest_example =
    rotate-keeps_newest a_system (λ name. refl) 2 backup_files (omega arith)
      (refl, (refl, (refl, (refl, tt))))

abbrev an_event : ℕ → AuditEvent
an_event time = record {
  id = time;
  action = "auth.login";
  actor = some "admin";
  source_ip = none;
  target_type = none;
  target_id = none;
  target_label = none;
  detail = end;
  request_id = none;
  created_at = time;
}

abbrev audited_db : Db
audited_db = record empty_db { audit_events = an_event 1 ∷ an_event 2 ∷ an_event 3 ∷ [] }

abbrev failed_db : Db
failed_db =
    a_db (a_vm VmStatus.error none)
      (record (a_job start_vm JobStatus.failed) { error = some "timeout" })

list_vms-newest_errors_example :
    (list_vms failed_db
      ≡ map
          (λ (v : Vm).
            serialize_vm v (first (is_job_of v.id) (error_jobs failed_db (live_vms failed_db))))
          (live_vms failed_db))
    × IsNewestFirst (λ (j : Job). j.created_at) (error_jobs failed_db (live_vms failed_db))
    × IsNewestFirst (λ (v : Vm). v.created_at) (live_vms failed_db)
    × ((p : Vm → Bool)
        → any p (live_vms failed_db)
          ≡ any
              (λ (v : Vm). elim v.deleted_at [ none ↦ true | some _ ↦ false ] && p v)
              failed_db.vms)
    × ((p : Job → Bool)
        → any p (error_jobs failed_db (live_vms failed_db))
          ≡ any
              (λ (j : Job).
                (elim j.vm_id [
                  | none ↦ false
                  | some id ↦ any (λ (v : Vm). v.id == id) (live_vms failed_db)
                ]
                  && elim j.error [ none ↦ false | some _ ↦ true ])
                && p j)
              failed_db.jobs)
list_vms-newest_errors_example = list_vms-newest_errors failed_db
