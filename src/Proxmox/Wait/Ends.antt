-- ===== src/Proxmox/Wait/Ends.antt =====
-- The waits of `ProxmoxClient` end.
use clusteration.Base.{ℕ, zero, suc, ◌*◌, ◌≢◌, inl, inr, arith, String, Bool-cases}
use clusteration.Base.Text.{contains}
use clusteration.Base.Json.{Json, null, str, obj}
use clusteration.Base.Exec.{Exc, proxmox, out_of_fuel, Result, ok, err, Exec}
use clusteration.Base.Exec.Ends.{IsFine, Ends, ends_rules, proxmox-ne}
use clusteration.Proxmox.{Transport, IsMonotonic}
use clusteration.Proxmox.Polls.{Ends-request, Ends-poll}
use clusteration.Proxmox.Parse.{parse_first_ipv4, parse_first_ipv4-ne}
use clusteration.Proxmox.Wait.{
  task_ended, ask_task, wait_for_task, non_empty, ask_ip, wait_for_ip, ask_exec, await_exec,
  run_in_guest, reset_script, after_reset, reset_from, reset_machine_id,
}

task_ended-ne : (v : Json) → task_ended v ≢ err out_of_fuel
unfolding task_ended
task_ended-ne (obj d) h = ground arith
task_ended-ne v h = cc h

non_empty-ne : (v : Json) → non_empty (parse_first_ipv4 v) ≢ err out_of_fuel
non_empty-ne v h = ground (arith, parse_first_ipv4-ne v)

module _ {N : Type 0} {t : Transport N} (mono : IsMonotonic t) where
  ask_task-Ends : (node upid : String) → Ends t.now (ask_task t node upid)
  unfolding ask_task
  ask_task-Ends node upid = search (ends_rules, Ends-request mono, task_ended-ne)

  -- The wait for a task ends.
  pub wait_for_task-Ends : (node : String) (upid : Json) → Ends t.now (wait_for_task t node upid)
  unfolding wait_for_task
  wait_for_task-Ends node (str upid) =
      Ends-poll mono 600000 3000 _ _ (omega arith) (λ h. cc h) (ask_task-Ends node upid)
  wait_for_task-Ends node v = search ends_rules

  ask_ip-Ends : (node : String) (vmid : ℕ) → Ends t.now (ask_ip t node vmid)
  unfolding ask_ip
  ask_ip-Ends node vmid = search (ends_rules, Ends-request mono, non_empty-ne)

  -- The wait for an address ends.
  pub wait_for_ip-Ends :
      (node : String) (vmid seconds : ℕ) → Ends t.now (wait_for_ip t node vmid seconds)
  unfolding wait_for_ip
  wait_for_ip-Ends node vmid seconds =
      Ends-poll mono (seconds * 1000) 3000 _ _ (omega arith) (λ h. cc h) (ask_ip-Ends node vmid)

  ask_exec-Ends : (node : String) (vmid : ℕ) (pid : Json) → Ends t.now (ask_exec t node vmid pid)
  unfolding ask_exec
  ask_exec-Ends node vmid pid = search (ends_rules, Ends-request mono)

  await_exec-Ends :
      (node : String) (vmid : ℕ) (pid : Json) → Ends t.now (await_exec t node vmid pid)
  unfolding await_exec
  await_exec-Ends node vmid null = search ends_rules
  await_exec-Ends node vmid pid =
      Ends-poll mono 60000 1500 _ _ (omega arith) (λ h. cc h) (ask_exec-Ends node vmid _)

  pub run_in_guest-Ends :
      (node : String) (vmid : ℕ) (script : String) → Ends t.now (run_in_guest t node vmid script)
  unfolding run_in_guest
  run_in_guest-Ends node vmid script = search (ends_rules, Ends-request mono, await_exec-Ends)

  after_reset-IsFine :
      (rest : Exc → Exec N Unit) (last : Exc) (r : Result String) (n n' : N)
      → ((e : Exc) → e ≢ out_of_fuel → Ends t.now (rest e))
      → last ≢ out_of_fuel
      → IsFine t.now n (r, n')
      → IsFine t.now n (after_reset t rest last r n')
  unfolding after_reset
  after_reset-IsFine rest last (ok out) n n' ends ne fine =
      let (later, le) = (ends last ne).at (t.sleep 6000 n') in
      elim (Bool-cases (contains out "reset-ok")) [
        | inl done ↦ rw (done, after_reset) (λ h. cc h, fine.1)
        | inr more ↦ rw (more, after_reset) (later, omega (arith, fine, mono.now-sleep 6000 n'))
      ]
  after_reset-IsFine rest last (err (proxmox k msg)) n n' ends ne fine =
      let (later, le) = (ends (proxmox k msg) (proxmox-ne k msg)).at (t.sleep 6000 n') in
      (later, omega (arith, fine, mono.now-sleep 6000 n'))
  after_reset-IsFine rest last (err e) n n' ends ne fine = (λ h. fine.0 (cc), fine.1)

  reset_from-Ends :
      (node : String) (vmid left : ℕ) (last : Exc)
      → last ≢ out_of_fuel
      → Ends t.now (reset_from t node vmid left last)
  unfolding reset_from
  reset_from-Ends node vmid zero last ne = record { at = λ n. (λ h. ne (cc h), omega arith) }
  reset_from-Ends node vmid (suc left) last ne = record {
    at = λ n.
        let (r, n') = run_in_guest t node vmid reset_script n in
        after_reset-IsFine (reset_from t node vmid left) last r n n'
          (reset_from-Ends node vmid left) ne ((run_in_guest-Ends node vmid reset_script).at n);
  }

  -- The reset of the machine id ends.
  pub reset_machine_id-Ends : (node : String) (vmid : ℕ) → Ends t.now (reset_machine_id t node vmid)
  unfolding reset_machine_id
  reset_machine_id-Ends node vmid = reset_from-Ends node vmid 15 _ (proxmox-ne _ _)
