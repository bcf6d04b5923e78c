-- ===== src/Proxmox/Request.antt =====
-- `ProxmoxClient._request` and `sanitize_proxmox_error` of backend/app/services/proxmox.py.
use Prim.Native.Char.{code}
use Prim.Native.String.{String, [], ◌∷◌, ◌++◌}
use clusteration.Base.{
  ℕ, zero, suc, ◌+◌, ◌*◌, ◌^◌, min, Bool, true, false, ◌||◌, ◌&&◌, not, Option, none, some, leb,
  ◌==◌, ◌=ₛ◌, if◌then◌else◌,
}
use clusteration.Base.Text.{show, strip, take_chars}
use clusteration.Base.Json.{Json, obj, get_in, truthy, py_str}
use clusteration.Base.Exec.{Exc, proxmox, other, base, auth, ok, err, Exec}
use clusteration.Proxmox.{
  Call, Response, Outcome, connect_error, timed_out, broken, response, Transport,
}
use clusteration.Proxmox.Paths.{path_of, method_of}

-- The exceptions that the loop catches.
pub data HttpError : Type 0 where
  connect timeout : HttpError
  status : Response → HttpError

unfoldable pub is_retry_status : ℕ → Bool
is_retry_status s = s == 429 || s == 500 || s == 502 || s == 503 || s == 504

abbrev newlines_to_spaces : String → String
newlines_to_spaces [] = []
newlines_to_spaces (c ∷ s) = (if code c == 10 then " " else c ∷ []) ++ newlines_to_spaces s

-- `str(message or errors or "")`, or both where there are both
detail_of : Json → String
unfolding get_in truthy py_str
detail_of payload =
    let message = get_in "message" payload in
    let errors = get_in "errors" payload in
    if truthy message && truthy errors
    then py_str message ++ ": " ++ py_str errors
    else if truthy message
    then py_str message
    else if truthy errors
    then py_str errors
    else ""

-- A body that is no JSON object gives its text.
response_detail : Response → String
unfolding detail_of strip
response_detail r = elim r.json [ some (obj d) ↦ detail_of (obj d) | _ ↦ strip r.text ]

unfoldable pub sanitize_proxmox_error : Option HttpError → String
unfolding response_detail show strip take_chars
sanitize_proxmox_error none = "erro ao chamar Proxmox"
sanitize_proxmox_error (some connect) =
    "não foi possível conectar ao Proxmox; verifique PROXMOX_HOST, rede e firewall"
sanitize_proxmox_error (some timeout) =
    "Proxmox não respondeu dentro do tempo limite; verifique API, rede e carga do node"
sanitize_proxmox_error (some (status r)) =
    let detail = strip (newlines_to_spaces (response_detail r)) in
    let head = "Proxmox respondeu HTTP " ++ show r.status_code in
    if detail =ₛ "" then head else head ++ ": " ++ take_chars 300 detail

-- One attempt: the `data` of the reply, an exception that leaves the loop, or one that it catches.
pub data Attempt : Type 0 where
  answered : Json → Attempt
  crashed : Exc → Attempt
  caught : HttpError → Attempt

read_body : Option Json → Attempt
read_body none = crashed (other "JSONDecodeError")
read_body (some (obj d)) = answered (get_in "data" (obj d))
read_body (some _) = crashed (other "AttributeError")

unfoldable pub classify : Outcome → Attempt
unfolding read_body is_retry_status get_in
classify connect_error = caught connect
classify timed_out = caught timeout
classify (broken name msg) = crashed (other (if msg =ₛ "" then name else msg))
classify (response r) =
    if is_retry_status r.status_code || not (leb 200 r.status_code && leb r.status_code 299)
    then caught (status r)
    else read_body r.json

-- `status is not None and status not in RETRY_STATUSES`
unfoldable pub is_final : HttpError → Bool
unfolding is_retry_status
is_final (status r) = not (is_retry_status r.status_code)
is_final _ = false

-- What is raised behind the loop.
unfoldable pub give_up : Call → Option HttpError → Exc
unfolding sanitize_proxmox_error path_of method_of
give_up c (some (status r)) =
    let detail = sanitize_proxmox_error (some (status r)) in
    if r.status_code == 401 || r.status_code == 403
    then proxmox auth ("Proxmox recusou " ++ method_of c ++ " " ++ path_of c ++ ": " ++ detail)
    else proxmox base detail
give_up c last = proxmox base (sanitize_proxmox_error last)

-- `min(0.5 * (2**attempt), 8.0)` seconds
unfoldable pub backoff : ℕ → ℕ
backoff attempt = min (500 * 2 ^ attempt) 8000

module _ {N : Type 0} (t : Transport N) where
  -- The rounds of `for attempt in range(4)` that are left, with the last exception.
  unfoldable pub request_from : ℕ → ℕ → Option HttpError → Call → Exec N Json
  unfolding classify is_final give_up backoff
  request_from zero attempt last c n = (err (give_up c last), n)
  request_from (suc left) attempt last c n =
      let (o, n') = t.send c n in
      elim (classify o) [
        | answered data_ ↦ (ok data_, n')
        | crashed e ↦ (err e, n')
        | caught e ↦ elim (attempt == 3 || is_final e) [
          | true ↦ (err (give_up c (some e)), n')
          | false ↦ request_from left (attempt + 1) (some e) c (t.sleep (backoff attempt) n')
        ]
      ]

  unfoldable pub request : Call → Exec N Json
  unfolding request_from
  request c = request_from 4 0 none c
