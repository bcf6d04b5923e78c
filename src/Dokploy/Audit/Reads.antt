-- ===== src/Dokploy/Audit/Reads.antt =====
-- Without `--repair` the script only reads.
use clusteration.Base.{◌≡◌, String, false, All}
use clusteration.Base.Json.{Fields}
use clusteration.Base.Exec.Keeps.{Keeps}
use clusteration.Dokploy.{Outside, Session, Args, ApiCall}
use clusteration.Dokploy.Rules.{Sends, sent_rules}
use clusteration.Dokploy.Picked.Calls.{pick_application-Sends}
use clusteration.Dokploy.Logs.Calls.{tolerated-Sends, log_summary-Sends}
use clusteration.Dokploy.Audit.{print_read, audit_app, with_key, without_key, run}

-- A request that changes nothing at the host.
abbrev pub IsGet : ApiCall → Type 0
IsGet c = c.method ≡ "GET"

module _ {N : Type 0} (t : Outside N) where
  print_read-Sends :
      (C : ApiCall → Type 0) (label : String) (c : ApiCall)
      → C c
      → Keeps (Sends C) (print_read t label c)
  unfolding print_read
  print_read-Sends C label c p = search sent_rules

  audit_app-Sends : (args : Args) (app_id : String) → Keeps (Sends IsGet) (audit_app t args app_id)
  unfolding audit_app
  audit_app-Sends args app_id =
      search (sent_rules, print_read-Sends, tolerated-Sends, log_summary-Sends t IsGet (λ c p. p))
        depth 9

  without_key-Sends :
      (args : Args) (status : Fields) → Keeps (Sends IsGet) (without_key t args status)
  unfolding without_key
  without_key-Sends args status = search sent_rules

  with_key-Sends :
      (args : Args)
      → args.repair ≡ false
      → (status : Fields) → Keeps (Sends IsGet) (with_key t args status)
  unfolding with_key
  with_key-Sends args off status =
      rw off (search (sent_rules, pick_application-Sends t IsGet (λ c p. p), audit_app-Sends))

  run-Sends : (args : Args) → args.repair ≡ false → Keeps (Sends IsGet) (run t args)
  unfolding run
  run-Sends args off = search (sent_rules, with_key-Sends, without_key-Sends)

-- Without `--repair`, where every request before it was a GET, every request of the script to the host is
-- a GET, on every path, also on those that end with an exception.
pub run-reads :
    {N : Type 0} (t : Outside N) (args : Args)
    → args.repair ≡ false
    → (s : Session N) → All IsGet s.sent
    → All IsGet (run t args s).1.sent
unfolding Sends
run-reads t args off s h = (run-Sends t args off).at s h
