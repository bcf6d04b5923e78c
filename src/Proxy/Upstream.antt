-- ===== src/Proxy/Upstream.antt =====
-- backend/app/api/internal.py: which address the panel gives to the proxy for a host name.
pub mod Offered
use clusteration.Base.{
  ℕ, String, ◌<>◌, Bool, true, false, not, ◌&&◌, ◌||◌, List, Option, none, some, first, ◌=ₛ◌,
  if◌then◌else◌,
}
use clusteration.Base.Text.{before, strip, lower, show, remove_suffix?}
use clusteration.Entities.{Vm, VmExposure}
use clusteration.Settings.{Settings}
use clusteration.Database.{Db, get_vm}

unfoldable pub normalized_host : String → String
unfolding before strip lower
normalized_host host = lower (strip (before host ":"))

unfoldable pub exposure_suffix : Settings → String
unfolding lower
exposure_suffix settings = "." <> lower settings.exposure_base_domain

abbrev pub is_enabled_slug : String → VmExposure → Bool
is_enabled_slug slug e = e.slug =ₛ slug && e.enabled

-- `not vm.ip_address`, and the address
abbrev pub address : Vm → Option String
address vm = elim vm.ip_address [ none ↦ none | some ip ↦ if ip =ₛ "" then none else some ip ]

-- The VM of an exposure, if it is still there and has an address.
unfoldable pub dial_vm : VmExposure → Option Vm → Option String
unfolding show
dial_vm e none = none
dial_vm e (some vm) = elim vm.deleted_at [
  | some _ ↦ none
  | none ↦ elim (address vm) [ none ↦ none | some ip ↦ some (ip <> ":" <> show e.port) ]
]

unfoldable pub dial_exposure : Db → Option VmExposure → Option String
unfolding dial_vm
dial_exposure db none = none
dial_exposure db (some e) = dial_vm e (get_vm e.vm_id db)

unfoldable pub dial_slug : Db → Option String → Option String
unfolding dial_exposure
dial_slug db none = none
dial_slug db (some slug) = dial_exposure db (first (is_enabled_slug slug) db.exposures)

-- The header `x-proxy-secret`, where there is one, is the secret.
abbrev pub knows : Settings → Option String → Bool
knows settings none = false
knows settings (some secret) =
    not (settings.exposure_proxy_secret =ₛ "") && secret =ₛ settings.exposure_proxy_secret

-- `exposure_upstream`: the `dial` of the one entry of the answer; `none` for an empty list
unfoldable pub exposure_upstream : Settings → Db → String → Option String → Option String
unfolding normalized_host exposure_suffix remove_suffix? dial_slug
exposure_upstream settings db host secret =
    if knows settings secret
    then dial_slug db (remove_suffix? (normalized_host host) (exposure_suffix settings))
    else none
