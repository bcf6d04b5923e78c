-- ===== src/Api/Exposures/Slugs.antt =====
-- No two exposures have the same slug.
use clusteration.Base.{
  ℕ, ◌≡◌, refl, inl, inr, String, Bool, false, List, [], ◌∷◌, ◌++◌, All, All-add, first, Option,
  none, some, ◌=ₛ◌, arith, Option-cases,
}
use clusteration.Base.Exec.{Exec, pure, raise, gets, modify, ◌>>=◌}
use clusteration.Base.Exec.Keeps.{Keeps, keeps_rules}
use clusteration.Base.Exec.Then.{Then, Then-after, Then-holds}
use clusteration.Entities.{Vm, VmExposure}
use clusteration.Proxmox.{Transport}
use clusteration.Worker.{World}
use clusteration.Api.{live, get_live_vm}
use clusteration.Api.Exposures.{has_slug, add_free, create_exposure, new_exposure}

-- No two of the exposures have the same slug.
abbrev pub HaveOwnSlugs : List VmExposure → Type 0
HaveOwnSlugs [] = Unit
HaveOwnSlugs (e ∷ es) = All (λ (x : VmExposure). (e.slug =ₛ x.slug) ≡ false) es × HaveOwnSlugs es

first-none :
    (p : VmExposure → Bool) (e : VmExposure) (es : List VmExposure)
    → first p (e ∷ es) ≡ none
    → (p e ≡ false) × (first p es ≡ none)
first-none p e es h = ground arith

HaveOwnSlugs-add :
    (es : List VmExposure) (new : VmExposure)
    → first (has_slug new.slug) es ≡ none
    → HaveOwnSlugs es
    → HaveOwnSlugs (es ++ new ∷ [])
HaveOwnSlugs-add [] new free h = (tt, tt)
HaveOwnSlugs-add (e ∷ es) new free (he, hs) =
    let (head, rest) = first-none (has_slug new.slug) e es free in
    (
      All-add (λ (x : VmExposure). (e.slug =ₛ x.slug) ≡ false) es new he head,
      HaveOwnSlugs-add es new rest hs,
    )

OwnSlugs : {N : Type 0} → World N → Type 0
OwnSlugs w = HaveOwnSlugs w.db.exposures

-- What the lookup of the slug has found.
Looked : {N : Type 0} → String → Option VmExposure → World N → Type 0
Looked slug existing w = OwnSlugs w × (first (has_slug slug) w.db.exposures ≡ existing)

module _ {N : Type 0} (t : Transport N) where
  live-OwnSlugs : (o : Option Vm) → Keeps (OwnSlugs {N = N}) (live o)
  unfolding live pure raise
  live-OwnSlugs none = search keeps_rules
  live-OwnSlugs (some vm) = record {
    at = λ w h. elim (Option-cases vm.deleted_at) [
      | inl p ↦ rw (p, live) h
      | inr (d, p) ↦ rw (p, live) h
    ];
  }

  get_live_vm-OwnSlugs : (vm_id : ℕ) → Keeps (OwnSlugs {N = N}) (get_live_vm vm_id)
  unfolding get_live_vm
  get_live_vm-OwnSlugs vm_id = search (keeps_rules, live-OwnSlugs)

  add_free-Then :
      (vm : Vm) (slug : String) (port : ℕ) (existing : Option VmExposure)
      → Then (Looked slug existing) (add_free t vm slug port existing) (λ _. OwnSlugs) OwnSlugs
  unfolding add_free OwnSlugs Looked ◌>>=◌ modify
  add_free-Then vm slug port (some e) = record { at = λ w h. h.0 }
  add_free-Then vm slug port none = record {
    at = λ w h. HaveOwnSlugs-add w.db.exposures (new_exposure t vm slug port w) h.1 h.0;
  }

  Looked-Then :
      (slug : String) (k : Option VmExposure → Exec (World N) VmExposure)
      → ((existing : Option VmExposure)
          → Then (Looked slug existing) (k existing) (λ _. OwnSlugs) OwnSlugs)
      → Then OwnSlugs
          (gets (λ w. first (has_slug slug) w.db.exposures) >>= k)
          (λ _. OwnSlugs)
          OwnSlugs
  unfolding OwnSlugs Looked ◌>>=◌
  Looked-Then slug k rest = record {
    at = λ w h. (rest (first (has_slug slug) w.db.exposures)).at w (h, refl);
  }

  create_exposure-Then :
      (vm_id : ℕ) (slug : String) (port : ℕ)
      → Then OwnSlugs (create_exposure t vm_id slug port) (λ _. OwnSlugs) OwnSlugs
  unfolding create_exposure
  create_exposure-Then vm_id slug port =
      search (Then-after, get_live_vm-OwnSlugs, Looked-Then, add_free-Then)

  -- The creation of an exposure leaves every slug to one exposure, whether it adds one or raises.
  pub create_exposure-keeps_slugs :
      (vm_id : ℕ) (slug : String) (port : ℕ) (w : World N)
      → HaveOwnSlugs w.db.exposures
      → HaveOwnSlugs (create_exposure t vm_id slug port w).1.db.exposures
  unfolding OwnSlugs
  create_exposure-keeps_slugs vm_id slug port w h =
      Then-holds (create_exposure t vm_id slug port) (create_exposure-Then vm_id slug port) w h
