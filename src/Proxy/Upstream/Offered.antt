-- ===== src/Proxy/Upstream/Offered.antt =====
-- Exactly the exposures of live VMs are offered, and only to the proxy.
use clusteration.Base.{
  ◌≡◌, refl, sym, ◌∙◌, ◌↔◌, inl, inr, String, ◌<>◌, true, false, Option, none, some, first, ◌=ₛ◌,
  arith, Bool-cases, Option-cases, some_inj,
}
use clusteration.Base.Text.{show, remove_suffix?}
use clusteration.Base.Text.Suffix.{remove_suffix?_iff}
use clusteration.Entities.{Vm, VmExposure}
use clusteration.Settings.{Settings}
use clusteration.Database.{Db, get_vm}
use clusteration.Proxy.Upstream.{
  normalized_host, exposure_suffix, is_enabled_slug, dial_vm, dial_exposure, dial_slug, knows,
  exposure_upstream,
}

-- An exposure that the panel may offer under a host name, with its VM and the VM's address.
pub record Offer (settings : Settings) (db : Db) (host dial : String) : Type 0 where
  pub slug : String
  pub exposure : VmExposure
  pub vm : Vm
  pub ip : String
  pub host-slug : normalized_host host ≡ slug <> exposure_suffix settings
  pub is_enabled : first (is_enabled_slug slug) db.exposures ≡ some exposure
  pub has_vm : get_vm exposure.vm_id db ≡ some vm
  pub is_live : vm.deleted_at ≡ none
  pub has_ip : vm.ip_address ≡ some ip
  pub is_address : (ip =ₛ "") ≡ false
  pub dial-ip : dial ≡ ip <> ":" <> show exposure.port

dial_vm-address :
    (exposure : VmExposure) (vm : Vm) (ip : String)
    → vm.deleted_at ≡ none
    → vm.ip_address ≡ some ip
    → (ip =ₛ "") ≡ false
    → dial_vm exposure (some vm) ≡ some (ip <> ":" <> show exposure.port)
unfolding dial_vm
dial_vm-address exposure vm ip p q r = rw (p, dial_vm, q, r) refl

module _ (settings : Settings) (db : Db) (host dial : String) where
  Offer-dialled :
      Offer settings db host dial
      → dial_slug db (remove_suffix? (normalized_host host) (exposure_suffix settings)) ≡ some dial
  unfolding dial_slug dial_exposure dial_vm
  Offer-dialled o =
      rw
        (
          (remove_suffix?_iff (normalized_host host) (exposure_suffix settings) o.slug).1
              o.host-slug,
          o.is_enabled,
          o.has_vm,
          o.is_live,
          o.has_ip,
          o.is_address,
          o.dial-ip,
        )
        refl

  Named : String → Type 0
  Named slug = normalized_host host ≡ slug <> exposure_suffix settings

  dialled_vm-Offer :
      (slug : String) (exposure : VmExposure) (found : Option Vm)
      → Named slug
      → first (is_enabled_slug slug) db.exposures ≡ some exposure
      → get_vm exposure.vm_id db ≡ found
      → dial_vm exposure found ≡ some dial
      → Offer settings db host dial
  unfolding dial_vm Named
  dialled_vm-Offer slug exposure none named enabled e h = absurd (ground arith)
  dialled_vm-Offer slug exposure (some vm) named enabled e h = elim (Option-cases vm.deleted_at) [
    | inr (at, p) ↦ absurd (ground arith)
    | inl p ↦ elim (Option-cases vm.ip_address) [
      | inl q ↦ absurd (ground arith)
      | inr (ip, q) ↦ elim (Bool-cases (ip =ₛ "")) [
        | inl r ↦ absurd (ground arith)
        | inr r ↦ record {
          slug = slug;
          exposure = exposure;
          vm = vm;
          ip = ip;
          host-slug = named;
          is_enabled = enabled;
          has_vm = e;
          is_live = p;
          has_ip = q;
          is_address = r;
          dial-ip = some_inj dial _ (sym h ∙ dial_vm-address exposure vm ip p q r);
        }
      ]
    ]
  ]

  dialled_exposure-Offer :
      (slug : String) (found : Option VmExposure)
      → Named slug
      → first (is_enabled_slug slug) db.exposures ≡ found
      → dial_exposure db found ≡ some dial
      → Offer settings db host dial
  unfolding dial_exposure
  dialled_exposure-Offer slug none named e h = absurd (ground arith)
  dialled_exposure-Offer slug (some exposure) named e h =
      dialled_vm-Offer slug exposure _ named e refl h

  dialled-Offer :
      (found : Option String)
      → remove_suffix? (normalized_host host) (exposure_suffix settings) ≡ found
      → dial_slug db found ≡ some dial
      → Offer settings db host dial
  unfolding dial_slug Named
  dialled-Offer none e h = absurd (ground arith)
  dialled-Offer (some slug) e h =
      dialled_exposure-Offer slug _
        ((remove_suffix?_iff (normalized_host host) (exposure_suffix settings) slug).0 e) refl h

  -- The panel gives an address exactly to a proxy that knows the secret, which must be set, and for a host
  -- that is the slug of an enabled exposure under the base domain, of a VM that is live and has an address.
  pub exposure_upstream_iff :
      (secret : Option String)
      → (exposure_upstream settings db host secret ≡ some dial)
        ↔ ((knows settings secret ≡ true) × Offer settings db host dial)
  unfolding exposure_upstream
  exposure_upstream_iff secret = (
    λ h. elim (Bool-cases (knows settings secret)) [
      | inl p ↦ (p, dialled-Offer _ refl (ground arith))
      | inr p ↦ absurd (ground arith)
    ],
    λ (p, o). rw p (Offer-dialled o),
  )
