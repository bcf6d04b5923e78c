-- ===== src/Lifecycle/Provision/Tracked.antt =====
-- From the moment at which the provisioning notes its clone, a restart finds the clone.
use clusteration.Base.{ℕ, ◌<◌, ◌≡◌, refl, inr, String, [], All, none}
use clusteration.Base.Json.{Json}
use clusteration.Base.Exec.{ok, modify, ◌>>=◌, ◌>>◌}
use clusteration.Base.Exec.Keeps.{Keeps}
use clusteration.Entities.{Template}
use clusteration.Settings.{Settings}
use clusteration.Proxmox.{Transport}
use clusteration.Lifecycle.{Run, stamp, set_job_meta, patch_meta, commit}
use clusteration.Lifecycle.Tracked.{
  Tracked, IsRecovered, IsFresh, IsFresh-run, Tracked-saves, noting-Tracked, IsNote-later,
  IsNote-here, IsHarmless-end, IsHarmless-field, tracked_rules,
}
use clusteration.Lifecycle.Disk.Tracked.{ensure_disk_size-Tracked}
use clusteration.Lifecycle.Provision.{
  at_step, at_task, wait_task, take_ip, record_clone, first_ip, make_unique, finish_clone,
}

module _ {N : Type 0} (t : Transport N) (settings : Settings) (phase : String) (v : ℕ) where
  at_step-Tracked : (step : String) → Keeps (Tracked v) (at_step t settings phase step v)
  unfolding at_step
  at_step-Tracked step = search tracked_rules depth 12

  at_task-Tracked :
      (step : String) (upid : Json) → Keeps (Tracked v) (at_task t settings phase step upid)
  unfolding at_task
  at_task-Tracked step upid = search tracked_rules depth 12

  wait_task-Tracked : (upid : Json) → Keeps (Tracked v) (wait_task t settings phase upid)
  unfolding wait_task
  wait_task-Tracked upid = search tracked_rules

  take_ip-Tracked : (seconds : ℕ) → Keeps (Tracked v) (take_ip t settings phase v seconds)
  unfolding take_ip
  take_ip-Tracked seconds = search tracked_rules depth 10

  first_ip-Tracked : Keeps (Tracked v) (first_ip t settings phase v)
  unfolding first_ip
  first_ip-Tracked = search (tracked_rules, at_step-Tracked, take_ip-Tracked) depth 16

  make_unique-Tracked : Keeps (Tracked v) (make_unique t settings phase v)
  unfolding make_unique
  make_unique-Tracked =
      search (tracked_rules, at_step-Tracked, at_task-Tracked, wait_task-Tracked, take_ip-Tracked)
        depth 18

  finish_clone-Tracked :
      (password : String) (upid : Json)
      → Keeps (Tracked v) (finish_clone t settings phase password v upid)
  unfolding finish_clone
  finish_clone-Tracked password upid =
      search
        (
          tracked_rules, at_step-Tracked, at_task-Tracked, wait_task-Tracked, first_ip-Tracked,
          make_unique-Tracked, ensure_disk_size-Tracked, inr,
        )
        depth 30

  record_clone-Tracked :
      (template : Template) (upid : Json) (r : Run N)
      → IsFresh v r
      → Tracked v (record_clone t settings phase template v upid r).1
  unfolding record_clone ◌>>=◌
  record_clone-Tracked template upid r fresh =
      noting-Tracked v t _
        (λ now. search (IsNote-later, IsNote-here, IsHarmless-end, IsHarmless-field, refl) depth 12)
        r fresh

  record_clone-returns :
      (template : Template) (upid : Json) (r : Run N)
      → (record_clone t settings phase template v upid r).0 ≡ ok tt
  unfolding record_clone ◌>>=◌ stamp set_job_meta patch_meta commit modify
  record_clone-returns template upid r = refl

  -- Once a clone has begun, with a VMID above 0 and for a VM that has none, every pair of rows that the
  -- provisioning commits, from the note of the clone on, is one of which the recovery at a restart
  -- makes a VM with the VMID of the clone, wherever the service stops and however the job ends.
  pub finish_clone-IsRecovered :
      (template : Template) (password : String) (upid : Json) (r : Run N)
      → 0 < v
      → r.vm.proxmox_vmid ≡ none
      → r.saves ≡ []
      → All
          (IsRecovered v)
          ((record_clone t settings phase template v upid
              >> finish_clone t settings phase password v upid)
            r).1.saves
  unfolding ◌>>=◌
  finish_clone-IsRecovered template password upid r more has saved =
      let fresh = IsFresh-run v r more has saved in
      let tracked = record_clone-Tracked template upid r fresh in
      rw (record_clone-returns template upid r)
        (Tracked-saves v _ ((finish_clone-Tracked password upid).at _ tracked))
