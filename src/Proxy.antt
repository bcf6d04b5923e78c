-- ===== src/Proxy.antt =====
-- backend/app/exposure_proxy.py: the proxy in front of the exposed ports. What the panel answers, and
-- the connection to a VM, are parameters; the bytes of the bodies are not modelled.
pub mod Upstream
pub mod Cache
pub mod Headers
use clusteration.Base.{
  ℕ, ◌+◌, ◌<◌, String, ◌<>◌, Bool, true, false, not, ◌&&◌, ◌||◌, List, [], ◌∷◌, Option, none, some,
  any, ◌=ₛ◌, ltb, if◌then◌else◌,
}
use clusteration.Base.Text.{lower}
use clusteration.Base.Exec.{Exc, Result, ok, err, Exec}

-- `HOP_BY_HOP`
abbrev pub hop_by_hop : List String
hop_by_hop =
    "connection" ∷ "keep-alive" ∷ "proxy-authenticate" ∷ "proxy-authorization" ∷ "te" ∷ "trailer"
    ∷ "transfer-encoding" ∷ "upgrade" ∷ []

abbrev pub is_hop_by_hop : String → Bool
is_hop_by_hop name = any (λ h. name =ₛ h) hop_by_hop

-- An entry of the cache: until when it holds, and the address. Times are milliseconds.
pub record Cached : Type 0 where
  pub until : ℕ
  pub dial : Option String

abbrev pub Cache : Type 0
Cache = String → Option Cached

abbrev pub no_entries : Cache
no_entries host = none

abbrev pub cache_ttl : ℕ
cache_ttl = 5_000

-- `_cache[host] = ...`
abbrev pub put_entry : String → Cached → Cache → Cache
put_entry host entry cache other = if other =ₛ host then some entry else cache other

-- What the panel answers to a lookup at a time; an exception where it cannot be reached.
abbrev pub Lookup : Type 0
Lookup = ℕ → String → Result (Option String)

remember : ℕ → String → Result (Option String) → Exec Cache (Option String)
remember now host (err e) cache = (err e, cache)
remember now host (ok dial) cache =
    (ok dial, put_entry host (record { until = now + cache_ttl; dial = dial }) cache)

found : Lookup → ℕ → String → Option Cached → Exec Cache (Option String)
unfolding remember
found ask now host none cache = remember now host (ask now host) cache
found ask now host (some entry) cache =
    let anew = remember now host (ask now host) cache in
    if ltb now entry.until then (ok entry.dial, cache) else anew

-- `resolve`
unfoldable pub resolve : Lookup → ℕ → String → Exec Cache (Option String)
unfolding found
resolve ask now host cache = found ask now host (cache host) cache

pub record Header : Type 0 where
  pub name : String
  pub value : String

-- `headers[name] = value`: a name that stands there keeps its place.
unfoldable pub set_header : String → String → List Header → List Header
set_header name value [] = record { name = name; value = value } ∷ []
set_header name value (h ∷ hs) =
    if h.name =ₛ name
    then record { name = name; value = value } ∷ hs
    else h ∷ set_header name value hs

-- `{k: v for k, v in headers if keep(k)}`: of a name that stands there twice, the last value.
unfoldable pub dict_from : (String → Bool) → List Header → List Header → List Header
unfolding set_header
dict_from keeps acc [] = acc
dict_from keeps acc (h ∷ hs) =
    dict_from keeps (if keeps h.name then set_header h.name h.value acc else acc) hs

abbrev pub goes_upstream : String → Bool
unfolding lower
goes_upstream name = not (is_hop_by_hop (lower name)) && not (lower name =ₛ "host")

abbrev pub goes_back : String → Bool
unfolding lower
goes_back name = not (is_hop_by_hop (lower name))

pub record HttpRequest : Type 0 where
  pub method : String
  pub host : String
  pub path : String
  pub query : String
  pub headers : List Header
  pub peer : Option String

abbrev pub peer_or_none : Option String → String
peer_or_none none = ""
peer_or_none (some host) = host

-- The headers of the request that goes to the VM.
unfoldable pub upstream_headers : HttpRequest → List Header
unfolding set_header dict_from lower
upstream_headers req = set_header "x-forwarded-for" (peer_or_none req.peer) (
    set_header "x-forwarded-host" req.host
      (set_header "x-forwarded-proto" "https" (dict_from goes_upstream [] req.headers)))

-- The headers of the answer that goes to the browser.
unfoldable pub response_headers : List Header → List Header
unfolding dict_from lower
response_headers headers = dict_from goes_back [] headers

-- What the proxy does with a request: it answers 404, or it calls the VM.
pub data Forward : Type 0 where
  not_found : Forward
  call : String → String → List Header → Forward

abbrev target : String → HttpRequest → String
target dial req =
    "http://" <> dial <> req.path <> (if req.query =ₛ "" then "" else "?" <> req.query)

forward : HttpRequest → Option String → Forward
unfolding upstream_headers
forward req none = not_found
forward req (some dial) =
    if dial =ₛ "" then not_found else call req.method (target dial req) (upstream_headers req)

forward_result : HttpRequest → Result (Option String) → Result Forward
unfolding forward
forward_result req (err e) = err e
forward_result req (ok dial) = ok (forward req dial)

-- `proxy_http`, up to the call of the VM
unfoldable pub proxy_http : Lookup → ℕ → HttpRequest → Exec Cache Forward
unfolding resolve forward_result
proxy_http ask now req cache =
    let (dial, cache) = resolve ask now req.host cache in (forward_result req dial, cache)
