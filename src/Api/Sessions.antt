-- ===== src/Api/Sessions.antt =====
-- `create_terminal_session` of backend/app/api/routes.py.
pub mod Claims
use clusteration.Base.{ℕ, ◌+◌, max, String, Bool, true, false, not, ◌||◌, List, [], ◌∷◌, ◌++◌, none}
use clusteration.Base.Exec.{app, Exec, pure, gets, raise_if, modify, ◌>>=◌, ◌>>◌}
use clusteration.Entities.{Vm, TerminalSession, SessionStatus, is_running, is_ready}
use clusteration.Settings.{Settings}
use clusteration.Database.{Db}
use clusteration.Proxmox.{Transport}
use clusteration.Worker.{World}
use clusteration.Api.{get_live_vm, change_db}

-- `max(60, int(get_settings().TERMINAL_SESSION_TTL_SECONDS))`
abbrev pub session_ttl : Settings → ℕ
session_ttl settings = max 60 settings.terminal_session_ttl_seconds

abbrev pub add_session : TerminalSession → Db → Db
add_session ts db = record db { sessions = db.sessions ++ ts ∷ []; next_id = db.next_id + 1 }

module _ {N : Type 0} (t : Transport N) (settings : Settings) where
  abbrev pub new_session : Vm → World N → TerminalSession
  new_session vm w =
      let now = t.utcnow w.net in
      record {
        id = w.db.next_id;
        vm_id = vm.id;
        status = SessionStatus.pending;
        expires_at = now + session_ttl settings;
        created_at = now;
        closed_at = none;
      }

  unfoldable pub create_terminal_session : ℕ → Exec (World N) TerminalSession
  unfolding modify
  create_terminal_session vm_id = do
    vm ← get_live_vm vm_id
    raise_if (not (is_running vm.status) || not (is_ready vm.ssh_status))
        (app "TERMINAL_NOT_READY" "terminal ainda não está pronto" 409)
    ts ← gets (new_session vm)
    change_db (add_session ts)
    pure ts
