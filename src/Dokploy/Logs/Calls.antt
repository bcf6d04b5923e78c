-- ===== src/Dokploy/Logs/Calls.antt =====
-- To print the logs only reads, and ends; a warning sends nothing.
use clusteration.Base.{◌≢◌, ◌≡◌, String}
use clusteration.Base.Exec.{Exc, runtime, out_of_fuel, Exec}
use clusteration.Base.Exec.Keeps.{Keeps}
use clusteration.Base.Exec.Ends.{Ends, ends_rules}
use clusteration.Dokploy.{Outside, Session, ApiCall}
use clusteration.Dokploy.Rules.{
  Sends, sent_rules, IsClock, time, Ends-api_json, Ends-print, Ends-print_all,
}
use clusteration.Dokploy.Logs.{warned, tolerated, log_summary}

module _ {N : Type 0} (t : Outside N) (C : ApiCall → Type 0) where
  warned-Sends : (label : String) (e : Exc) → Keeps (Sends C) (warned t label e)
  unfolding warned
  warned-Sends label (runtime text) = search sent_rules
  warned-Sends label e = search sent_rules

  pub tolerated-Sends :
      (label : String) (m : Exec (Session N) Unit)
      → Keeps (Sends C) m
      → Keeps (Sends C) (tolerated t label m)
  unfolding tolerated
  tolerated-Sends label m k = search (sent_rules, warned-Sends)

  pub log_summary-Sends :
      ((c : ApiCall) → c.method ≡ "GET" → C c)
      → (app_id expected : String) → Keeps (Sends C) (log_summary t app_id expected)
  unfolding log_summary
  log_summary-Sends reads app_id expected = search (sent_rules, reads)

module _ {N : Type 0} {t : Outside N} (clock : IsClock t) where
  warned-Ends : (label : String) (e : Exc) → e ≢ out_of_fuel → Ends (time t) (warned t label e)
  unfolding warned
  warned-Ends label (runtime text) ne = search (ends_rules, Ends-print clock)
  warned-Ends label e ne = search ends_rules

  pub tolerated-Ends :
      (label : String) (m : Exec (Session N) Unit)
      → Ends (time t) m
      → Ends (time t) (tolerated t label m)
  unfolding tolerated
  tolerated-Ends label m ends = search (ends_rules, warned-Ends)

  pub log_summary-Ends : (app_id expected : String) → Ends (time t) (log_summary t app_id expected)
  unfolding log_summary
  log_summary-Ends app_id expected =
      search (ends_rules, Ends-api_json clock, Ends-print clock, Ends-print_all clock)
