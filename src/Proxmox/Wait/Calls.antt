-- ===== src/Proxmox/Wait/Calls.antt =====
-- The waits of `ProxmoxClient` only read, save for the reset of the machine id.
use clusteration.Base.{ℕ, zero, suc, ◌≡◌, true, inl, inr, Bool-cases, String}
use clusteration.Base.Text.{contains}
use clusteration.Base.Json.{Json, null, str}
use clusteration.Base.Exec.{Exc, proxmox, base, Result, ok, err, Exec}
use clusteration.Base.Exec.Keeps.{Keeps}
use clusteration.Proxmox.{Call, Transport, agent_exec}
use clusteration.Proxmox.Trace.{Traced, traced}
use clusteration.Proxmox.Calls.{Sends, is_read, sends_rules, Sends-poll}
use clusteration.Proxmox.Wait.{
  wait_for_task, wait_for_ip, ask_task, ask_ip, ask_exec, await_exec, run_in_guest, after_reset,
  reset_from, reset_machine_id, reset_script,
}

module _ {N : Type 0} (t : Transport N) (C : Call → Type 0)
    (reads : (c : Call) → is_read c ≡ true → C c) where
  ask_task-Sends : (node upid : String) → Keeps (Sends C) (ask_task (traced t) node upid)
  unfolding ask_task
  ask_task-Sends node upid = search (sends_rules, reads)

  pub wait_for_task-Sends :
      (node : String) (upid : Json) → Keeps (Sends C) (wait_for_task (traced t) node upid)
  unfolding wait_for_task
  wait_for_task-Sends node (str upid) = search (Sends-poll, ask_task-Sends)
  wait_for_task-Sends node upid = search sends_rules

  ask_ip-Sends : (node : String) (vmid : ℕ) → Keeps (Sends C) (ask_ip (traced t) node vmid)
  unfolding ask_ip
  ask_ip-Sends node vmid = search (sends_rules, reads) depth 8

  pub wait_for_ip-Sends :
      (node : String) (vmid seconds : ℕ)
      → Keeps (Sends C) (wait_for_ip (traced t) node vmid seconds)
  unfolding wait_for_ip
  wait_for_ip-Sends node vmid seconds = search (Sends-poll, ask_ip-Sends)

  ask_exec-Sends :
      (node : String) (vmid : ℕ) (pid : Json) → Keeps (Sends C) (ask_exec (traced t) node vmid pid)
  unfolding ask_exec
  ask_exec-Sends node vmid pid = search (sends_rules, reads)

  await_exec-Sends :
      (node : String) (vmid : ℕ) (pid : Json)
      → Keeps (Sends C) (await_exec (traced t) node vmid pid)
  unfolding await_exec
  await_exec-Sends node vmid null = search sends_rules
  await_exec-Sends node vmid pid = search (Sends-poll, ask_exec-Sends)

  module _ (node : String) (vmid : ℕ) (own : C (agent_exec node vmid reset_script)) where
    run_in_guest-Sends : Keeps (Sends C) (run_in_guest (traced t) node vmid reset_script)
    unfolding run_in_guest
    run_in_guest-Sends = search (sends_rules, await_exec-Sends, own)

    after_reset-Sends :
        (rest : Exc → Exec (Traced N) Unit) (last : Exc)
        → ((e : Exc) → Keeps (Sends C) (rest e))
        → (r : Result String) → Keeps (Sends C) (after_reset (traced t) rest last r)
    unfolding after_reset Sends
    after_reset-Sends rest last k (ok out) = record {
      at = λ s h. elim (Bool-cases (contains out "reset-ok")) [
        | inl p ↦ rw (p, after_reset) h
        | inr p ↦ rw (p, after_reset) ((k last).at ((traced t).sleep 6000 s) h)
      ];
    }
    after_reset-Sends rest last k (err (proxmox kind msg)) = record {
      at = λ s h. (k (proxmox kind msg)).at ((traced t).sleep 6000 s) h;
    }
    after_reset-Sends rest last k (err e) = record { at = λ s h. h }

    reset_from-Sends :
        (left : ℕ) (last : Exc) → Keeps (Sends C) (reset_from (traced t) node vmid left last)
    unfolding reset_from
    reset_from-Sends zero last = record { at = λ s h. h }
    reset_from-Sends (suc left) last = record {
      at = λ s h.
          (after_reset-Sends (reset_from (traced t) node vmid left) last (reset_from-Sends left)
              (run_in_guest (traced t) node vmid reset_script s).0).at
            (run_in_guest (traced t) node vmid reset_script s).1 (run_in_guest-Sends.at s h);
    }

    pub reset_machine_id-Sends : Keeps (Sends C) (reset_machine_id (traced t) node vmid)
    unfolding reset_machine_id
    reset_machine_id-Sends =
        reset_from-Sends 15
          (proxmox base "reset de machine-id não confirmou (guest-exec indisponível)")
