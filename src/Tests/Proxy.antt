-- ===== src/Tests/Proxy.antt =====
-- Examples of the theorems on the exposure proxy.
use clusteration.Base.{
  ℕ, ◌+◌, ◌≤◌, ◌<◌, ◌≡◌, refl, ◌↔◌, true, false, [], ◌∷◌, All, some, ◌=ₛ◌, arith,
}
use clusteration.Base.Text.{lower}
use clusteration.Base.Exec.{ok}
use clusteration.Entities.{Vm, VmStatus, VmExposure}
use clusteration.Settings.{Settings, defaults}
use clusteration.Database.{Db, empty_db}
use clusteration.Proxy.{
  Header, HttpRequest, Lookup, no_entries, cache_ttl, is_hop_by_hop, resolve, upstream_headers,
}
use clusteration.Proxy.Cache.{empty, lookup, resolve-refines}
use clusteration.Proxy.Headers.{HaveOwnNames, AreOnly, upstream_headers-are_safe}
use clusteration.Proxy.Upstream.{knows, exposure_upstream}
use clusteration.Proxy.Upstream.Offered.{Offer, exposure_upstream_iff}
use clusteration.Tests.{a_vm}

-- A panel whose answer changes.
abbrev a_panel : Lookup
a_panel now host = ok (some "192.0.2.9:3000")

resolve-refines_example :
    (asked_at : ℕ) × (asked_at ≤ 4_000)
    × (4_000 < asked_at + cache_ttl)
    × (a_panel asked_at "shop.example" ≡ ok (some "192.0.2.9:3000"))
unfolding resolve
resolve-refines_example =
    resolve-refines a_panel 1_000 4_000 "shop.example"
      (resolve a_panel 1_000 "shop.example" no_entries).1 (some "192.0.2.9:3000")
      (lookup 1_000 "shop.example" (empty 0) (omega arith)) (omega arith) refl

abbrev a_request : HttpRequest
a_request = record {
  method = "GET";
  host = "shop.example";
  path = "/";
  query = "";
  headers =
      record { name = "host"; value = "shop.example" }
      ∷ record { name = "x-forwarded-for"; value = "203.0.113.1" }
      ∷ record { name = "accept"; value = "*/*" }
      ∷ [];
  peer = some "198.51.100.4";
}

upstream_headers-are_safe_example :
    HaveOwnNames (upstream_headers a_request)
    × All
        (λ (h : Header).
          (is_hop_by_hop (lower h.name) ≡ false) × ((lower h.name =ₛ "host") ≡ false))
        (upstream_headers a_request)
    × AreOnly "x-forwarded-for" "198.51.100.4" (upstream_headers a_request)
upstream_headers-are_safe_example = upstream_headers-are_safe a_request

abbrev exposing : Settings
exposing = record defaults { exposure_base_domain = "Apps.example"; exposure_proxy_secret = "s3" }

abbrev exposed_vm : Vm
exposed_vm = record (a_vm VmStatus.running (some 105)) { ip_address = some "192.0.2.9" }

abbrev an_exposure : VmExposure
an_exposure = record {
  id = 1;
  vm_id = 7;
  slug = "shop";
  port = 3000;
  enabled = true;
  created_at = 0;
}

abbrev exposed_db : Db
exposed_db = record empty_db { vms = exposed_vm ∷ []; exposures = an_exposure ∷ [] }

exposure_upstream_iff_example :
    (exposure_upstream exposing exposed_db "Shop.apps.example:443" (some "s3")
      ≡ some "192.0.2.9:3000")
    ↔ ((knows exposing (some "s3") ≡ true)
        × Offer exposing exposed_db "Shop.apps.example:443" "192.0.2.9:3000")
exposure_upstream_iff_example =
    exposure_upstream_iff exposing exposed_db "Shop.apps.example:443" "192.0.2.9:3000" (some "s3")

exposure_upstream_runs :
    exposure_upstream exposing exposed_db "Shop.apps.example:443" (some "s3")
    ≡ some "192.0.2.9:3000"
unfolding exposure_upstream
exposure_upstream_runs = refl
