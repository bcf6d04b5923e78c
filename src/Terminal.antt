-- ===== src/Terminal.antt =====
-- backend/app/services/terminal.py: the SSH check of a VM, and the claim of a terminal session.
pub mod Ends
pub mod Rows
pub mod Claim
pub mod Bridge
use clusteration.Base.{
  ℕ, String, Bool, true, false, ◌&&◌, ◌||◌, not, Option, none, some, List, [], ◌∷◌, first, adjust,
  leb, ◌==◌, ◌=ₛ◌, if◌then◌else◌,
}
use clusteration.Base.Exec.{ok, Exec, pure, gets, ◌>>=◌, ◌>>◌}
use clusteration.Entities.{
  Vm, TerminalSession, SessionStatus, SshStatus, ready, failed, connected, expired, is_running,
  is_ready,
}
use clusteration.Database.{Db, get_vm}
use clusteration.Proxmox.{Transport}
use clusteration.Proxmox.Wait.{poll}
use clusteration.Lifecycle.{Run, commit, call, set_ssh_status}

-- `not vm.ip_address` is the opposite.
abbrev pub address_of : Option String → Option String
address_of none = none
address_of (some ip) = if ip =ₛ "" then none else some ip

module _ {N : Type 0} (t : Transport N) where
  ask_ssh : String → Exec N (Option Bool)
  ask_ssh ip n =
      let (opened, n') = t.open_terminal ip n in (ok (if opened then some true else none), n')

  check_at : Option String → Exec (Run N) Bool
  unfolding ask_ssh
  check_at none = do set_ssh_status failed; commit; pure false
  check_at (some ip) = do
    opened ← call (poll t 90000 5000 (ok false) (ask_ssh ip))
    set_ssh_status (if opened then ready else failed)
    commit
    pure opened

  unfoldable pub check_ssh_ready : Exec (Run N) Bool
  unfolding check_at
  check_ssh_ready = do ip ← gets (λ r. r.vm.ip_address); check_at (address_of ip)

-- `status in (pending, connected)`
abbrev pub is_claimable : SessionStatus → Bool
is_claimable SessionStatus.pending = true
is_claimable connected = true
is_claimable _ = false

-- The VM of a session may be entered.
unfoldable pub is_reachable : Vm → Bool
is_reachable vm =
    elim vm.deleted_at [ none ↦ true | some _ ↦ false ]
    && elim (address_of vm.ip_address) [ none ↦ false | some _ ↦ true ]
    && is_running vm.status
    && is_ready vm.ssh_status

abbrev set_session : ℕ → SessionStatus → Db → Db
set_session sid status db = record db {
  sessions =
      adjust (λ (s : TerminalSession). s.id == sid) (λ s. record s { status = status }) db.sessions;
}

claim_of : ℕ → Option Vm → TerminalSession → Db → Option (TerminalSession × Vm) × Db
unfolding is_reachable
claim_of sid none ts db = (none, db)
claim_of sid (some vm) ts db =
    if is_reachable vm
    then (some (record ts { status = connected }, vm), set_session sid connected db)
    else (none, db)

claim_found : ℕ → ℕ → Option TerminalSession → Db → Option (TerminalSession × Vm) × Db
unfolding claim_of
claim_found now sid none db = (none, db)
claim_found now sid (some ts) db =
    if not (is_claimable ts.status)
    then (none, db)
    else if leb ts.expires_at now
    then (none, set_session sid expired db)
    else claim_of sid (get_vm ts.vm_id db) ts db

-- The session id has been parsed: `none` for a text that is no UUID. No other session claims this one
-- between the read and the update, so the update's row count is 1.
unfoldable pub validate_and_claim_session : ℕ → Option ℕ → Db → Option (TerminalSession × Vm) × Db
unfolding claim_found
validate_and_claim_session now none db = (none, db)
validate_and_claim_session now (some sid) db =
    claim_found now sid (first (λ (s : TerminalSession). s.id == sid) db.sessions) db
