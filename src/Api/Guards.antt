-- ===== src/Api/Guards.antt =====
-- The actions that the panel offers for a VM are those that its handlers accept.
use clusteration.Base.{
  ℕ, ◌+◌, ◌≡◌, refl, ◌↔◌, String, Bool, true, false, not, none, some, arith, ◌=ₛ◌, eq_iff,
}
use clusteration.Base.Exec.{Exc, Result, ok, Exec, raise_if, ◌>>=◌}
use clusteration.Entities.{Vm, is_running}
use clusteration.Settings.{Settings}
use clusteration.Database.{get_vm}
use clusteration.Proxmox.{Transport}
use clusteration.Worker.{World}
use clusteration.Api.{
  Request, live, get_live_vm, put_in_queue, add_queued, enqueue_power_job, audit,
}
use clusteration.Api.Actions.{start, stop, reboot, delete, recheck_ssh, actions_of}

abbrev pub IsOk : {A : Type 0} → Result A → Type 0
IsOk {A} r = (a : A) × (r ≡ ok a)

module _ {N : Type 0} where
  pub get_live_vm-found :
      (vm_id : ℕ) (vm : Vm) (w : World N)
      → get_vm vm_id w.db ≡ some vm
      → vm.deleted_at ≡ none
      → get_live_vm vm_id w ≡ (ok vm, w)
  unfolding get_live_vm live ◌>>=◌
  get_live_vm-found vm_id vm w found here = ground (arith)

same_text : (s : String) → not (s =ₛ s) ≡ false
same_text s = rw ((eq_iff s s).1 refl)

module _ {S A : Type 0} where
  -- A handler goes past a guard exactly where the guard does not hold.
  guard_iff :
      (b : Bool) (e : Exc) (m : Exec S A) (s : S)
      → IsOk ((raise_if b e >>= λ _. m) s).0 ↔ ((b ≡ false) × IsOk (m s).0)
  unfolding raise_if ◌>>=◌
  guard_iff true e m s = (λ (a, p). cc p, λ (p, h). cc p)
  guard_iff false e m s = (λ h. (refl, h), λ (p, h). h)

module _ {N : Type 0} (t : Transport N) (settings : Settings) (req : Request) (vm_id : ℕ) (vm : Vm)
    (w : World N) (found : get_vm vm_id w.db ≡ some vm) (here : vm.deleted_at ≡ none) where
  start-IsOk : IsOk (start t settings req vm_id w).0 ↔ ((actions_of vm).can_start ≡ true)
  unfolding start ◌>>=◌ actions_of enqueue_power_job add_queued audit
  start-IsOk =
      rw (start, ◌>>=◌, get_live_vm-found vm_id vm w found here)
        (
          λ h.
              let (p, h') = (guard_iff _ _ _ w).0 h in
              let (q, h'') = (guard_iff _ _ _ w).0 h' in ground arith,
          λ h.
              (guard_iff _ _ _ w).1
                (ground arith, (guard_iff _ _ _ w).1 (ground arith, (w.db.next_id + 1, refl))),
        )

  stop-IsOk : IsOk (stop t settings req vm_id w).0 ↔ ((actions_of vm).can_stop ≡ true)
  unfolding stop ◌>>=◌ actions_of enqueue_power_job add_queued audit
  stop-IsOk =
      rw (stop, ◌>>=◌, get_live_vm-found vm_id vm w found here)
        (
          λ h. let (p, h') = (guard_iff _ _ _ w).0 h in ground arith,
          λ h. (guard_iff _ _ _ w).1 (ground arith, (w.db.next_id + 1, refl)),
        )

  reboot-IsOk : IsOk (reboot t settings req vm_id w).0 ↔ ((actions_of vm).can_reboot ≡ true)
  unfolding reboot ◌>>=◌ actions_of enqueue_power_job add_queued audit
  reboot-IsOk =
      rw (reboot, ◌>>=◌, get_live_vm-found vm_id vm w found here)
        (
          λ h. let (p, h') = (guard_iff _ _ _ w).0 h in ground arith,
          λ h. (guard_iff _ _ _ w).1 (ground arith, (w.db.next_id + 1, refl)),
        )

  delete-IsOk :
      IsOk (delete t settings req vm_id vm.hostname w).0 ↔ ((actions_of vm).can_delete ≡ true)
  unfolding delete ◌>>=◌ actions_of add_queued audit put_in_queue
  delete-IsOk =
      rw (delete, ◌>>=◌, get_live_vm-found vm_id vm w found here)
        (
          λ h.
              let (p, h') = (guard_iff _ _ _ w).0 h in
              let (q, h'') = (guard_iff _ _ _ w).0 h' in ground arith,
          λ h.
              (guard_iff _ _ _ w).1
                (same_text vm.hostname, (guard_iff _ _ _ w).1 (ground arith, (w.db.next_id, refl))),
        )

  recheck-IsOk : IsOk (recheck_ssh t settings req vm_id w).0 ↔ (is_running vm.status ≡ true)
  unfolding recheck_ssh ◌>>=◌ enqueue_power_job add_queued
  recheck-IsOk =
      rw (recheck_ssh, ◌>>=◌, get_live_vm-found vm_id vm w found here)
        (
          λ h. let (p, h') = (guard_iff _ _ _ w).0 h in ground arith,
          λ h. (guard_iff _ _ _ w).1 (ground arith, (w.db.next_id, refl)),
        )

  offered_recheck : (actions_of vm).can_recheck ≡ true → is_running vm.status ≡ true
  unfolding actions_of
  offered_recheck h = ground (arith, h)

  -- For a VM that is in the database and not deleted, the panel offers to start, stop, reboot or delete
  -- it exactly where the handler of the request, given the VM's hostname to confirm, accepts it. The check
  -- of SSH is accepted exactly where the VM runs, and so wherever the panel offers it.
  pub handlers-accept_offered :
      (IsOk (start t settings req vm_id w).0 ↔ ((actions_of vm).can_start ≡ true))
      × (IsOk (stop t settings req vm_id w).0 ↔ ((actions_of vm).can_stop ≡ true))
      × (IsOk (reboot t settings req vm_id w).0 ↔ ((actions_of vm).can_reboot ≡ true))
      × (IsOk (delete t settings req vm_id vm.hostname w).0 ↔ ((actions_of vm).can_delete ≡ true))
      × (IsOk (recheck_ssh t settings req vm_id w).0 ↔ (is_running vm.status ≡ true))
      × ((actions_of vm).can_recheck ≡ true → IsOk (recheck_ssh t settings req vm_id w).0)
  handlers-accept_offered = (
    start-IsOk,
    stop-IsOk,
    reboot-IsOk,
    delete-IsOk,
    recheck-IsOk,
    λ h. recheck-IsOk.1 (offered_recheck h),
  )
