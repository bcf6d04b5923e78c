-- ===== src/Dokploy.antt =====
-- backend/scripts/dokploy-repair.py: the audit and repair of the application at the Dokploy host. The
-- host, the public page and the clock are the parameter `Outside`.
pub mod Redact
pub mod Candidates
pub mod Rules
pub mod Picked
pub mod Logs
pub mod Audit
use clusteration.Base.{
  ℕ, zero, suc, ◌+◌, ◌-◌, ◌*◌, ◌/◌, ◌≤◌, ◌<◌, String, ◌<>◌, Bool, true, false, not, ◌&&◌, ◌||◌,
  List, [], ◌∷◌, ◌++◌, keep, drop, length, Option, none, some, ◌=ₛ◌, ◌==◌, ltb, leb, if◌then◌else◌,
  is_empty,
}
use Prim.Native.Char.{code}
use Prim.Native.String.{[] as nil_text, ◌∷◌ as ◌∷ₜ◌}
use clusteration.Base.Text.{show, contains, take_chars}
use clusteration.Base.Json.{
  Json, Fields, Items, null, bool, str, num, pos, obj, arr, field, end, get, merge, repr,
}
use clusteration.Base.Json.Dumps.{dumps}
use clusteration.Base.Exec.{
  Exc, runtime, other, out_of_fuel, Result, ok, err, Exec, pure, raise, of_result, gets, modify,
  raise_if, try_except, ◌>>=◌, ◌>>◌,
}
use Redact.{redact}
use Candidates.{Candidate, collect_candidates}

-- A request to the API of Dokploy.
pub record ApiCall : Type 0 where
  pub method : String
  pub endpoint : String
  pub query : Fields
  pub body : Option Fields

-- What comes back: an HTTP error with its text, another exception, or a payload, which may be empty.
pub data Reply : Type 0 where
  http_error : ℕ → String → Reply
  failed : String → Reply
  payload : Option Json → Reply

-- What loading the public `/version` gives: an exception that `public_build` catches, another, or a
-- value.
pub data Loaded : Type 0 where
  caught : String → Loaded
  uncaught : String → Loaded
  loaded : Json → Loaded

-- The world outside; times are seconds.
pub record Outside (N : Type 0) : Type 0 where
  pub call : ApiCall → N → Reply × N
  pub version : String → N → Loaded × N
  pub sleep : ℕ → N → N
  pub now : N → ℕ

-- What is printed: a redacted value under its label, or a line.
pub data Printed : Type 0 where
  json : String → Json → Printed
  line : String → Printed

pub record Session (N : Type 0) : Type 0 where
  pub net : N
  pub sent : List ApiCall
  pub printed : List Printed

pub record Args : Type 0 where
  pub api_key : String
  pub app_id : String
  pub app_name : String
  pub domain : String
  pub public_url : String
  pub expected_build : String
  pub repair : Bool
  pub restart : Bool
  pub deploys : Bool
  pub redeploys : Bool
  pub clean_queues : Bool
  pub logs : Bool
  pub wait : ℕ

abbrev pub get_call : String → Fields → ApiCall
get_call endpoint query = record { method = "GET"; endpoint = endpoint; query = query; body = none }

abbrev pub post_call : String → Fields → ApiCall
post_call endpoint body = record {
  method = "POST";
  endpoint = endpoint;
  query = end;
  body = some body;
}

-- What `api_json` makes of a reply.
unfoldable pub read_reply : ApiCall → Reply → Result Json
unfolding show take_chars
read_reply c (http_error status detail) = err (
    runtime (
      c.method
      <> " "
      <> c.endpoint
      <> " failed HTTP "
      <> show status
      <> ": "
      <> take_chars 600 detail))
read_reply c (failed text) = err (other text)
read_reply c (payload none) = ok (obj end)
read_reply c (payload (some j)) = ok j

-- `x.get("build") == expected_build`
unfoldable pub has_build : String → Fields → Bool
unfolding get
has_build expected status = elim (get "build" status) [ str s ↦ s =ₛ expected | _ ↦ false ]

-- `url.rstrip("/")`
rstrip_slashes : String → String
rstrip_slashes nil_text = ""
rstrip_slashes (c ∷ₜ s) =
    let rest = rstrip_slashes s in if code c == 47 && rest =ₛ "" then "" else c ∷ₜ rest

pub version_url : String → String
unfolding rstrip_slashes
version_url public_url = rstrip_slashes public_url <> "/version"

failed_status : String → String → Fields
failed_status url text =
    field "ok" (bool false) (field "error" (str text) (field "url" (str url) end))

-- `public_build` on what was loaded
unfoldable pub status_of : String → Loaded → Result Fields
unfolding merge failed_status
status_of url (caught text) = ok (failed_status url text)
status_of url (uncaught text) = err (other text)
status_of url (loaded (obj d)) = ok (merge (field "ok" (bool true) (field "url" (str url) end)) d)
status_of url (loaded _) = ok (failed_status url "non-object response")

module _ {N : Type 0} (t : Outside N) where
  unfoldable pub api_json : ApiCall → Exec (Session N) Json
  unfolding read_reply
  api_json c s =
      let (reply, net) = t.call c s.net in
      (read_reply c reply, record s { net = net; sent = s.sent ++ c ∷ [] })

  unfoldable pub print : Printed → Exec (Session N) Unit
  unfolding modify
  print p = modify (λ s. record s { printed = s.printed ++ p ∷ [] })

  -- The text is cut at 12000 characters.
  unfoldable pub print_json : String → Json → Exec (Session N) Unit
  unfolding print redact
  print_json label value = print (json label (redact value))

  -- `public_build`
  unfoldable pub public_build : String → Exec (Session N) Fields
  unfolding status_of version_url
  public_build public_url s =
      let (answer, net) = t.version (version_url public_url) s.net in
      (status_of (version_url public_url) answer, record s { net = net })

  unfoldable pub pause : ℕ → Exec (Session N) Unit
  unfolding modify
  pause d = modify (λ s. record s { net = t.sleep d s.net })

  unfoldable pub print_all : List Printed → Exec (Session N) Unit
  unfolding print
  print_all [] = pure tt
  print_all (p ∷ ps) = print p >> print_all ps
