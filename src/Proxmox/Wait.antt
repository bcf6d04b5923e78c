-- ===== src/Proxmox/Wait.antt =====
-- The polling loops of `ProxmoxClient` in backend/app/services/proxmox.py. Each is `while True` in the
-- source, and ends by its deadline; here it has as much fuel as the deadline leaves it rounds.
pub mod Ends
pub mod Calls
use clusteration.Base.{
  ℕ, zero, suc, ◌+◌, ◌/◌, ◌*◌, String, ◌<>◌, Bool, true, false, Option, none, some, leb, ◌=ₛ◌, ◌&&◌,
  not, if◌then◌else◌,
}
use clusteration.Base.Text.{show, contains}
use clusteration.Base.Json.{Json, str, obj, null, get, get_in, truthy, str_or_empty}
use clusteration.Base.Exec.{
  Exc, proxmox, base, task, timeout, other, out_of_fuel, ProxmoxKind, Result, ok, err, Exec, pure,
  raise, try_except, on_proxmox, of_result, ◌>>=◌,
}
use clusteration.Proxmox.{Transport, Call, task_status, network_interfaces, agent_exec, exec_status}
use clusteration.Proxmox.Request.{request}
use clusteration.Proxmox.Parse.{parse_first_ipv4}

module _ {N : Type 0} (t : Transport N) {A : Type 0} where
  -- Ask until there is an answer; `late` is the result once the deadline has passed.
  unfoldable pub poll_from : ℕ → Exec N (Option A) → ℕ → ℕ → Result A → Exec N A
  poll_from zero ask deadline interval late n = (err out_of_fuel, n)
  poll_from (suc fuel) ask deadline interval late n =
      let (r, n') = ask n in
      elim r [
        | err e ↦ (err e, n')
        | ok (some a) ↦ (ok a, n')
        | ok none ↦ elim (leb deadline (t.now n')) [
          | true ↦ (late, n')
          | false ↦ poll_from fuel ask deadline interval late (t.sleep interval n')
        ]
      ]

  unfoldable pub poll : ℕ → ℕ → Result A → Exec N (Option A) → Exec N A
  unfolding poll_from
  poll limit interval late ask n =
      poll_from (limit / interval + 2) ask (t.now n + limit) interval late n

-- What a task's status says: nothing yet, its exit status, or the error of the task.
task_ended : Json → Result (Option String)
unfolding get str_or_empty
task_ended (obj d) =
    let exit_status = str_or_empty (get "exitstatus" d) in
    let ended =
      if exit_status =ₛ ""
      then ok (some "OK")
      else if exit_status =ₛ "OK"
      then ok (some exit_status)
      else err (proxmox task exit_status) in
    elim (get "status" d) [ str s ↦ if s =ₛ "stopped" then ended else ok none | _ ↦ ok none ]
task_ended _ = err (other "AttributeError")

-- An empty address counts as none.
abbrev non_empty : Result (Option String) → Result (Option String)
non_empty (ok (some ip)) = if ip =ₛ "" then ok none else ok (some ip)
non_empty r = r

exec_ended : Json → Option String
unfolding get truthy str_or_empty
exec_ended (obj d) =
    if truthy (get "exited" d) then some (str_or_empty (get "out-data" d)) else none
exec_ended _ = none

abbrev pub reset_script : String
reset_script =
    "rm -f /etc/machine-id /var/lib/dbus/machine-id && "
    <> "systemd-machine-id-setup >/dev/null 2>&1 && "
    <> "ln -sf /etc/machine-id /var/lib/dbus/machine-id && " <> "echo reset-ok"

module _ {N : Type 0} (t : Transport N) where
  ask_task : String → String → Exec N (Option String)
  unfolding task_ended
  ask_task node upid = do reply ← request t (task_status node upid); of_result (task_ended reply)

  -- `quote(upid, ...)` takes a text.
  unfoldable pub wait_for_task : String → Json → Exec N String
  unfolding ask_task
  wait_for_task node (str upid) =
      poll t 600000 3000 (err (proxmox timeout "task não terminou em 600s")) (ask_task node upid)
  wait_for_task node _ = raise (other "TypeError")

  ask_ip : String → ℕ → Exec N (Option String)
  unfolding parse_first_ipv4 on_proxmox
  ask_ip node vmid =
      try_except
        (do
          reply ← request t (network_interfaces node vmid)
          of_result (non_empty (parse_first_ipv4 reply)))
        (on_proxmox (λ _ _. pure none))

  -- The limit is given in seconds.
  unfoldable pub wait_for_ip : String → ℕ → ℕ → Exec N String
  unfolding ask_ip
  wait_for_ip node vmid seconds =
      poll t (seconds * 1000) 3000
        (err (proxmox timeout ("guest-agent não retornou IP em " <> show seconds <> "s")))
        (ask_ip node vmid)

  ask_exec : String → ℕ → Json → Exec N (Option String)
  unfolding exec_ended
  ask_exec node vmid pid = do reply ← request t (exec_status node vmid pid); pure (exec_ended reply)

  await_exec : String → ℕ → Json → Exec N String
  unfolding ask_exec
  await_exec node vmid null = pure ""
  await_exec node vmid pid = poll t 60000 1500 (ok "") (ask_exec node vmid pid)

  unfoldable pub run_in_guest : String → ℕ → String → Exec N String
  unfolding await_exec get_in
  run_in_guest node vmid script = do
    started ← request t (agent_exec node vmid script)
    await_exec node vmid (get_in "pid" started)

  -- Behind an attempt: the rest of the loop takes the last exception.
  after_reset : (Exc → Exec N Unit) → Exc → Result String → Exec N Unit
  unfolding contains
  after_reset rest last (ok out) n = elim (contains out "reset-ok") [
    | true ↦ (ok tt, n)
    | false ↦ rest last (t.sleep 6000 n)
  ]
  after_reset rest last (err (proxmox k msg)) n = rest (proxmox k msg) (t.sleep 6000 n)
  after_reset rest last (err e) n = (err e, n)

  -- The rounds of `for _ in range(15)` that are left, with the last exception.
  reset_from : String → ℕ → ℕ → Exc → Exec N Unit
  unfolding run_in_guest after_reset
  reset_from node vmid zero last n = (err last, n)
  reset_from node vmid (suc left) last n =
      let (r, n') = run_in_guest node vmid reset_script n in
      after_reset (reset_from node vmid left) last r n'

  -- Without an exception the error is that the reset was not confirmed.
  unfoldable pub reset_machine_id : String → ℕ → Exec N Unit
  unfolding reset_from
  reset_machine_id node vmid =
      reset_from node vmid 15
        (proxmox base "reset de machine-id não confirmou (guest-exec indisponível)")
