-- ===== src/Tests/Panel.antt =====
-- Examples of the theorems on the panel's requests and on a restart.
use clusteration.Base.Exec.{ok}
use clusteration.Base.{arith}
use clusteration.Api.Sessions.{create_terminal_session}
use clusteration.Api.Sessions.Claims.{create_terminal_session-claimed}
use clusteration.Api.Exposures.{create_exposure}
use clusteration.Api.Exposures.Slugs.{HaveOwnSlugs, create_exposure-keeps_slugs}
use clusteration.Base.{◌<◌}
use clusteration.Base.{
  ◌≡◌, refl, ◌↔◌, ◌&&◌, true, false, [], ◌∷◌, ◌++◌, map, keep, adjust, All, none, some,
}
use clusteration.Base.Text.{lower}
use clusteration.Entities.{Vm, Job, JobStatus, queued, start_vm, VmStatus, stopped, is_transient}
use clusteration.Entities.{TerminalSession, SessionStatus, connected, ready}
use clusteration.Terminal.{is_claimable, validate_and_claim_session}
use clusteration.Terminal.Claim.{CanBeEntered, claim_iff}
use clusteration.Settings.{defaults, VmSize}
use clusteration.Database.{Db}
use clusteration.Worker.{World}
use clusteration.Worker.Recovery.{
  is_job_running, is_job_queued, is_live, interrupted, needs_password,
  mark_orphaned_running_as_failed, requeue_queued_jobs,
}
use clusteration.Worker.Recovery.Restart.{mark_orphaned-surfaces, payload_of, requeue_complete}
use clusteration.Api.{Request}
use clusteration.Api.Actions.{start, stop, reboot, delete, recheck_ssh, actions_of}
use clusteration.Api.Guards.{IsOk, handlers-accept_offered}
use clusteration.Api.Create.{VmCreate, create_locked}
use clusteration.Api.Hostnames.{AreDistinct, create_locked-keeps_hostnames_distinct}
use clusteration.Tests.{Script, scripted, a_vm, a_job, a_template, a_db}

abbrev restart_db : Db
restart_db = a_db (a_vm VmStatus.starting (some 105)) (a_job start_vm JobStatus.running)

abbrev restarted_db : Db
restarted_db =
    a_db (a_vm VmStatus.error (some 105)) (interrupted (a_job start_vm JobStatus.running))

mark_orphaned-surfaces_example :
    (restarted_db.jobs ≡ adjust (λ (j : Job). is_job_running j.status) interrupted restart_db.jobs)
    × All (λ (j : Job). is_job_running j.status ≡ false) restarted_db.jobs
    × All (λ (v : Vm). (is_transient v.status && is_live v.deleted_at) ≡ false) restarted_db.vms
unfolding mark_orphaned_running_as_failed
mark_orphaned-surfaces_example = mark_orphaned-surfaces restart_db restarted_db refl

abbrev a_world : World Script
a_world = record {
  db = a_db (a_vm stopped (some 105)) (a_job start_vm queued);
  queue = [];
  net = record { clock = 5000; replies = [] };
}

requeue_complete_example :
    ((requeue_queued_jobs a_world).queue
      ≡ []
        ++ map payload_of
            (keep (λ (j : Job). is_job_queued j.status) (requeue_queued_jobs a_world).db.jobs))
    × All
        (λ (j : Job). (is_job_queued j.status && needs_password j.type) ≡ false)
        (requeue_queued_jobs a_world).db.jobs
requeue_complete_example = requeue_complete a_world

abbrev a_request : Request
a_request = record {
  forwarded_for = "10.0.0.9, 10.0.0.1";
  client_host = some "10.0.0.1";
  request_id = none;
}

handlers-accept_offered_example :
    (IsOk (start scripted defaults a_request 7 a_world).0 ↔ (true ≡ true))
    × (IsOk (stop scripted defaults a_request 7 a_world).0 ↔ (false ≡ true))
    × (IsOk (reboot scripted defaults a_request 7 a_world).0 ↔ (false ≡ true))
    × (IsOk (delete scripted defaults a_request 7 "web-1" a_world).0 ↔ (true ≡ true))
    × (IsOk (recheck_ssh scripted defaults a_request 7 a_world).0 ↔ (false ≡ true))
    × (false ≡ true → IsOk (recheck_ssh scripted defaults a_request 7 a_world).0)
unfolding actions_of
handlers-accept_offered_example =
    handlers-accept_offered scripted defaults a_request 7 (a_vm stopped (some 105)) a_world refl
      refl

abbrev a_payload : VmCreate
a_payload = record {
  hostname = "web-2";
  template = "debian";
  size = "small";
  disk_gb = 12;
  root_password = "secret-password";
}

abbrev a_size : VmSize
a_size = record { cpu = 1; memory_mb = 2048; label = "1 vCPU / 2 GB" }

create_locked-keeps_hostnames_distinct_example :
    AreDistinct
      (create_locked scripted defaults
        (a_template ∷ [])
        a_request
        a_payload
        a_template
        a_size
        ("pve1", some 3)
        a_world).1.db.vms
unfolding lower
create_locked-keeps_hostnames_distinct_example =
    create_locked-keeps_hostnames_distinct scripted defaults (a_template ∷ []) a_request a_payload
      a_template a_size ("pve1", some 3) a_world refl (tt, tt)

-- A session of a VM that runs at an address and has passed the SSH check.
abbrev pub reachable_vm : Vm
reachable_vm = record (a_vm VmStatus.running (some 105)) {
  ssh_status = ready;
  ip_address = some "10.0.0.7";
}

abbrev pub a_session : TerminalSession
a_session = record {
  id = 9;
  vm_id = 7;
  status = SessionStatus.pending;
  expires_at = 300;
  created_at = 0;
  closed_at = none;
}

abbrev pub session_db : Db
session_db = record (a_db reachable_vm (a_job start_vm JobStatus.success)) {
  sessions = a_session ∷ [];
}

claim_iff_example :
    ((validate_and_claim_session 100 (some 9) session_db).0
      ≡ some (record a_session { status = connected }, reachable_vm))
    ↔ ((is_claimable SessionStatus.pending ≡ true) × (100 < 300) × CanBeEntered reachable_vm)
claim_iff_example = claim_iff 100 9 a_session reachable_vm session_db refl refl

abbrev open_world : World Script
open_world = record {
  db = a_db reachable_vm (a_job start_vm JobStatus.success);
  queue = [];
  net = record { clock = 5000; replies = [] };
}

create_terminal_session-claimed_example :
    (ts : TerminalSession) × ((create_terminal_session scripted defaults 7 open_world).0 ≡ ok ts)
    × ((validate_and_claim_session 60
          (some ts.id)
          (create_terminal_session scripted defaults 7 open_world).1.db).0
        ≡ some (record ts { status = connected }, reachable_vm))
create_terminal_session-claimed_example =
    create_terminal_session-claimed scripted defaults 7 60 reachable_vm open_world refl
      (refl, ("10.0.0.7", refl), refl, refl) refl (omega arith)

create_exposure-keeps_slugs_example :
    HaveOwnSlugs (create_exposure scripted 7 "shop" 8080 a_world).1.db.exposures
create_exposure-keeps_slugs_example = create_exposure-keeps_slugs scripted 7 "shop" 8080 a_world tt
