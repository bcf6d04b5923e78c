-- ===== src/Dokploy/Picked/Calls.antt =====
-- To pick an application only reads, and ends.
use clusteration.Base.{◌≢◌, ◌≡◌, refl, String, List, [], ◌∷◌, arith}
use clusteration.Base.Json.{Json}
use clusteration.Base.Exec.{out_of_fuel, err}
use clusteration.Base.Exec.Keeps.{Keeps}
use clusteration.Base.Exec.Ends.{Ends, ends_rules}
use clusteration.Dokploy.{Outside, Args, ApiCall}
use clusteration.Dokploy.Rules.{
  Sends, sent_rules, IsClock, time, Ends-api_json, Ends-print, Ends-print_json, Ends-print_all,
}
use clusteration.Dokploy.Candidates.{Candidate}
use clusteration.Dokploy.Picked.{chosen, pick_from, pick_application}

chosen-ne :
    (name : String) (top : Candidate) (others : List Candidate)
    → chosen name top others ≢ err out_of_fuel
unfolding chosen
chosen-ne name top others h = ground arith

module _ {N : Type 0} (t : Outside N) (C : ApiCall → Type 0) where
  pick_from-Sends :
      (name domain : String) (projects : Json) (found : List Candidate)
      → Keeps (Sends C) (pick_from t name domain projects found)
  unfolding pick_from
  pick_from-Sends name domain projects [] = search sent_rules
  pick_from-Sends name domain projects (top ∷ others) = search sent_rules

  pub pick_application-Sends :
      ((c : ApiCall) → c.method ≡ "GET" → C c)
      → (args : Args) → Keeps (Sends C) (pick_application t args)
  unfolding pick_application
  pick_application-Sends reads args = search (sent_rules, pick_from-Sends, reads, refl)

module _ {N : Type 0} {t : Outside N} (clock : IsClock t) where
  pick_from-Ends :
      (name domain : String) (projects : Json) (found : List Candidate)
      → Ends (time t) (pick_from t name domain projects found)
  unfolding pick_from
  pick_from-Ends name domain projects [] = search (ends_rules, Ends-print_json clock)
  pick_from-Ends name domain projects (top ∷ others) =
      search (ends_rules, Ends-print clock, Ends-print_all clock, chosen-ne)

  pub pick_application-Ends : (args : Args) → Ends (time t) (pick_application t args)
  unfolding pick_application
  pick_application-Ends args = search (ends_rules, pick_from-Ends, Ends-api_json clock)
