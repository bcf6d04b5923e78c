-- ===== src/Startup/Order.antt =====
-- What the panel has recovered when it takes its first request.
use clusteration.Base.{◌≡◌, false, ◌&&◌, List, ◌++◌, map, keep, All}
use clusteration.Entities.{Vm, Job, is_transient}
use clusteration.Settings.{Settings}
use clusteration.Worker.{Payload, World}
use clusteration.Worker.Recovery.{is_job_running, is_job_queued, is_live}
use clusteration.Worker.Recovery.Restart.{payload_of}

-- No job is running, no VM that is not deleted is in a transient state, and the queue has the jobs that
-- are still queued behind what it had.
pub record IsRecovered {N : Type 0} (queue : List Payload) (w' : World N) : Type 0 where
  pub none_running : All (λ (j : Job). is_job_running j.status ≡ false) w'.db.jobs
  pub none_transient :
      All (λ (v : Vm). (is_transient v.status && is_live v.deleted_at) ≡ false) w'.db.vms
  pub all_queued :
      w'.queue ≡ queue ++ map payload_of (keep (λ (j : Job). is_job_queued j.status) w'.db.jobs)
