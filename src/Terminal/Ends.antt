-- ===== src/Terminal/Ends.antt =====
-- The SSH check of a VM ends.
use clusteration.Base.{String, false, Option, none, some, arith}
use clusteration.Base.Exec.{ok}
use clusteration.Base.Exec.Ends.{Ends}
use clusteration.Proxmox.{Transport, IsMonotonic}
use clusteration.Proxmox.Polls.{Ends-poll}
use clusteration.Proxmox.Wait.{poll}
use clusteration.Lifecycle.Rules.{clock_of, job_ends}
use clusteration.Terminal.{ask_ssh, check_at, check_ssh_ready}

module _ {N : Type 0} {t : Transport N} (mono : IsMonotonic t) where
  ask_ssh-Ends : (ip : String) → Ends t.now (ask_ssh t ip)
  unfolding ask_ssh
  ask_ssh-Ends ip = record { at = λ n. (λ h. cc h, mono.now-open_terminal ip n) }

  poll-Ends : (ip : String) → Ends t.now (poll t 90000 5000 (ok false) (ask_ssh t ip))
  poll-Ends ip =
      Ends-poll mono 90000 5000 (ok false) (ask_ssh t ip) (omega arith) (λ h. cc h)
        (ask_ssh-Ends ip)

  check_at-Ends : (ip : Option String) → Ends (clock_of t) (check_at t ip)
  unfolding check_at
  check_at-Ends none = search job_ends
  check_at-Ends (some ip) = search (job_ends, poll-Ends)

  pub check_ssh_ready-Ends : Ends (clock_of t) (check_ssh_ready t)
  unfolding check_ssh_ready
  check_ssh_ready-Ends = search (job_ends, check_at-Ends)
