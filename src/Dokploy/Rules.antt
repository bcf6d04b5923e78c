-- ===== src/Dokploy/Rules.antt =====
-- What the calls of the script keep of the requests sent, and how they end.
use clusteration.Base.{ℕ, ◌+◌, ◌≤◌, ◌≢◌, String, List, [], ◌∷◌, All, All-add, none, some, arith}
use clusteration.Base.Json.{Json, obj}
use clusteration.Base.Exec.{out_of_fuel, err}
use clusteration.Base.Exec.Keeps.{Keeps, keeps_rules, Keeps-bind, Keeps-pure}
use clusteration.Base.Exec.Ends.{Ends, ends_rules, Ends-bind}
use clusteration.Dokploy.{
  Outside, Session, Printed, ApiCall, Reply, http_error, failed, payload, read_reply, Loaded,
  caught, uncaught, loaded, status_of, api_json, print, print_all, print_json, public_build, pause,
}

-- Every request so far is of this kind.
unfoldable pub Sends : {N : Type 0} → (ApiCall → Type 0) → Session N → Type 0
Sends C s = All C s.sent

module _ {N : Type 0} (t : Outside N) (C : ApiCall → Type 0) where
  pub Sends-api_json : (c : ApiCall) → C c → Keeps (Sends C) (api_json t c)
  unfolding api_json Sends
  Sends-api_json c p = record { at = λ s h. All-add C s.sent c h p }

  pub Sends-print : (p : Printed) → Keeps (Sends C) (print t p)
  unfolding print Sends
  Sends-print p = record { at = λ s h. h }

  pub Sends-print_json : (label : String) (v : Json) → Keeps (Sends C) (print_json t label v)
  unfolding print_json
  Sends-print_json label v = search Sends-print

  pub Sends-print_all : (ps : List Printed) → Keeps (Sends C) (print_all t ps)
  unfolding print_all
  Sends-print_all [] = search keeps_rules
  Sends-print_all (p ∷ ps) = Keeps-bind _ _ (Sends-print p) λ _. Sends-print_all ps

  pub Sends-public_build : (url : String) → Keeps (Sends C) (public_build t url)
  unfolding public_build Sends
  Sends-public_build url = record { at = λ s h. h }

  pub Sends-pause : (d : ℕ) → Keeps (Sends C) (pause t d)
  unfolding pause Sends
  Sends-pause d = record { at = λ s h. h }

pub ruleset sent_rules = (
  keeps_rules, Sends-api_json, Sends-print, Sends-print_json, Sends-print_all, Sends-public_build,
  Sends-pause,
)

-- The monotonic clock: a sleep takes at least its time, and a request does not turn the clock back.
pub record IsClock {N : Type 0} (t : Outside N) : Type 0 where
  pub now-sleep : (d : ℕ) (n : N) → t.now n + d ≤ t.now (t.sleep d n)
  pub now-call : (c : ApiCall) (n : N) → t.now n ≤ t.now (t.call c n).1
  pub now-version : (url : String) (n : N) → t.now n ≤ t.now (t.version url n).1

-- The time of a session
abbrev pub time : {N : Type 0} → Outside N → Session N → ℕ
time t s = t.now s.net

read_reply-ne : (c : ApiCall) (reply : Reply) → read_reply c reply ≢ err out_of_fuel
unfolding read_reply
read_reply-ne c (http_error status detail) h = cc h
read_reply-ne c (failed text) h = cc h
read_reply-ne c (payload none) h = cc h
read_reply-ne c (payload (some j)) h = cc h

status_of-ne : (url : String) (answer : Loaded) → status_of url answer ≢ err out_of_fuel
unfolding status_of
status_of-ne url (caught text) h = cc h
status_of-ne url (uncaught text) h = cc h
status_of-ne url (loaded (obj d)) h = cc h
status_of-ne url (loaded _) h = cc h

module _ {N : Type 0} {t : Outside N} (clock : IsClock t) where
  pub Ends-api_json : (c : ApiCall) → Ends (time t) (api_json t c)
  unfolding api_json
  Ends-api_json c = record {
    at = λ s. (read_reply-ne c (t.call c s.net).0, clock.now-call c s.net);
  }

  pub Ends-print : (p : Printed) → Ends (time t) (print t p)
  unfolding print
  Ends-print p = record { at = λ s. (λ h. cc h, omega arith) }

  pub Ends-print_json : (label : String) (v : Json) → Ends (time t) (print_json t label v)
  unfolding print_json
  Ends-print_json label v = Ends-print _

  pub Ends-print_all : (ps : List Printed) → Ends (time t) (print_all t ps)
  unfolding print_all
  Ends-print_all [] = search ends_rules
  Ends-print_all (p ∷ ps) = Ends-bind _ _ (Ends-print p) λ _. Ends-print_all ps

  pub Ends-public_build : (url : String) → Ends (time t) (public_build t url)
  unfolding public_build
  Ends-public_build url = record { at = λ s. (status_of-ne _ _, clock.now-version _ s.net) }

  pub Ends-pause : (d : ℕ) → Ends (time t) (pause t d)
  unfolding pause
  Ends-pause d = record { at = λ s. (λ h. cc h, omega (arith, clock.now-sleep d s.net)) }
