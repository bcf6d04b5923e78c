-- ===== src/Api/Exposures.antt =====
-- The exposures of a VM's ports, of backend/app/api/routes.py.
pub mod Slugs
use clusteration.Base.{
  ℕ, ◌+◌, String, Bool, true, false, not, ◌&&◌, List, [], ◌∷◌, ◌++◌, keep, first, Option, none,
  some, ◌==◌, ◌=ₛ◌, if◌then◌else◌,
}
use clusteration.Base.Exec.{app, Exec, pure, raise, gets, modify, ◌>>=◌, ◌>>◌}
use clusteration.Entities.{Vm, VmExposure}
use clusteration.Database.{Db}
use clusteration.Proxmox.{Transport}
use clusteration.Worker.{World}
use clusteration.Api.{get_live_vm, change_db}

abbrev pub has_slug : String → VmExposure → Bool
has_slug slug e = e.slug =ₛ slug

module _ {N : Type 0} (t : Transport N) where
  unfoldable pub list_exposures : ℕ → Exec (World N) (List VmExposure)
  list_exposures vm_id = do
    get_live_vm vm_id
    gets (λ w. keep (λ (e : VmExposure). e.vm_id == vm_id) w.db.exposures)

  abbrev pub new_exposure : Vm → String → ℕ → World N → VmExposure
  new_exposure vm slug port w = record {
    id = w.db.next_id;
    vm_id = vm.id;
    slug = slug;
    port = port;
    enabled = true;
    created_at = t.utcnow w.net;
  }

  -- What follows the lookup of the slug.
  add_free : Vm → String → ℕ → Option VmExposure → Exec (World N) VmExposure
  unfolding modify
  add_free vm slug port (some _) = raise (app "EXPOSURE_SLUG_TAKEN" "slug já está em uso" 409)
  add_free vm slug port none = do
    e ← gets (new_exposure vm slug port)
    change_db (λ db. record db { exposures = db.exposures ++ e ∷ []; next_id = db.next_id + 1 })
    pure e

  -- The slug and the port have the forms of the schema.
  unfoldable pub create_exposure : ℕ → String → ℕ → Exec (World N) VmExposure
  unfolding add_free
  create_exposure vm_id slug port = do
    vm ← get_live_vm vm_id
    existing ← gets (λ w. first (has_slug slug) w.db.exposures)
    add_free vm slug port existing

  remove_of : ℕ → Option VmExposure → Db → Db
  remove_of vm_id none db = db
  remove_of vm_id (some e) db =
      if e.vm_id == vm_id
      then record db { exposures = keep (λ (x : VmExposure). not (x.id == e.id)) db.exposures }
      else db

  unfoldable pub delete_exposure : ℕ → ℕ → Exec (World N) Unit
  unfolding remove_of modify
  delete_exposure vm_id exposure_id = do
    get_live_vm vm_id
    found ← gets (λ w. first (λ (e : VmExposure). e.id == exposure_id) w.db.exposures)
    change_db (remove_of vm_id found)
