-- ===== src/Startup/Templates/Seeded.antt =====
-- Behind the seeding, every image of the settings has its template.
use clusteration.Base.{
  ℕ, ◌≡◌, refl, sym, subst, ◌∙◌, String, true, false, List, [], ◌∷◌, All, first, Option, none, some,
  ◌=ₛ◌, arith, text_refl, eq_iff,
}
use clusteration.Base.Json.{str, get, merge, get-insert}
use clusteration.Entities.{Template}
use clusteration.Settings.{Settings}
use clusteration.Database.{Db}
use clusteration.Database.Lookup.{
  first-append_none, first-append_other, first-adjust_found, first-adjust_elsewhere,
}
use clusteration.Startup.Templates.{
  SeedItem, seed, has_os, seed_defaults, merged_defaults, refresh, new_template, seed_found,
  seed_one, seed_all, seed_templates,
}

-- The images have distinct names of operating systems.
abbrev HaveOwnOs : List SeedItem → Type 0
HaveOwnOs [] = Unit
HaveOwnOs (i ∷ is) = All (λ (x : SeedItem). (x.os =ₛ i.os) ≡ false) is × HaveOwnOs is

other_os : (a b o : String) → (a =ₛ b) ≡ true → (b =ₛ o) ≡ false → (a =ₛ o) ≡ false
other_os a b o p q = subst (λ x. (x =ₛ o) ≡ false) (sym ((eq_iff a b).0 p)) q

module _ (settings : Settings) (now : ℕ) where
  -- The template of an image has the VMID and the name of the settings, and the default node.
  pub record IsSeeded (item : SeedItem) (db : Db) : Type 0 where
    pub row : Template
    pub row-first : first (has_os item.os) db.templates ≡ some row
    pub vmid : row.proxmox_template_vmid ≡ item.vmid
    pub name : row.name ≡ item.name
    pub node : get "node" row.defaults ≡ str settings.proxmox_default_node

  seed_found-other :
      (item : SeedItem) (found : Option Template) (o : String) (db : Db)
      → (item.os =ₛ o) ≡ false
      → first (has_os o) (seed_found settings now item found db).templates
        ≡ first (has_os o) db.templates
  unfolding seed_found refresh new_template
  seed_found-other item none o db h =
      first-append_other (has_os o) db.templates (new_template settings item db.next_id now) h
  seed_found-other item (some row) o db h =
      first-adjust_elsewhere (has_os o) (has_os item.os) (refresh settings item)
        (λ x q. (other_os x.os item.os o q h, other_os x.os item.os o q h)) db.templates

  seed_all-other :
      (items : List SeedItem) (o : String) (db : Db)
      → All (λ (i : SeedItem). (i.os =ₛ o) ≡ false) items
      → first (has_os o) (seed_all settings now items db).templates ≡ first (has_os o) db.templates
  unfolding seed_all seed_one
  seed_all-other [] o db h = refl
  seed_all-other (i ∷ is) o db (h, hs) =
      seed_all-other is o (seed_one settings now i db) hs ∙ seed_found-other i _ o db h

  -- What the defaults of an image say themselves.
  abbrev HasNode : SeedItem → Type 0
  HasNode item = get "node" (seed_defaults settings item) ≡ str settings.proxmox_default_node

  seed_found-IsSeeded :
      (item : SeedItem) (found : Option Template) (db : Db)
      → HasNode item
      → first (has_os item.os) db.templates ≡ found
      → IsSeeded item (seed_found settings now item found db)
  unfolding seed_found refresh new_template merged_defaults
  seed_found-IsSeeded item none db n h = record {
    row = new_template settings item db.next_id now;
    row-first =
        first-append_none (has_os item.os) db.templates (new_template settings item db.next_id now)
          h (text_refl item.os);
    vmid = refl;
    name = refl;
    node = n;
  }
  seed_found-IsSeeded item (some row) db n h = record {
    row = refresh settings item row;
    row-first =
        first-adjust_found (has_os item.os) (refresh settings item) (λ x q. q) db.templates row h;
    vmid = refl;
    name = refl;
    node =
        get-insert "node" "node" (str settings.proxmox_default_node)
          (merge (seed_defaults settings item) row.defaults);
  }

  IsSeeded-later :
      (item : SeedItem) (db db' : Db)
      → first (has_os item.os) db'.templates ≡ first (has_os item.os) db.templates
      → IsSeeded item db
      → IsSeeded item db'
  IsSeeded-later item db db' e s = record {
    row = s.row;
    row-first = e ∙ s.row-first;
    vmid = s.vmid;
    name = s.name;
    node = s.node;
  }

  seed_all-IsSeeded :
      (items : List SeedItem) (db : Db)
      → HaveOwnOs items
      → All HasNode items
      → All (λ (i : SeedItem). IsSeeded i (seed_all settings now items db)) items
  unfolding seed_all seed_one
  seed_all-IsSeeded [] db own nodes = tt
  seed_all-IsSeeded (i ∷ is) db (own, owns) (n, ns) = (
    IsSeeded-later i (seed_one settings now i db) _
        (seed_all-other is i.os (seed_one settings now i db) own)
        (seed_found-IsSeeded i _ db n refl),
    seed_all-IsSeeded is (seed_one settings now i db) owns ns,
  )

  -- Whatever templates there were, each of the six images has a template with the VMID of the settings,
  -- its name and the default node, and every other template is found as before.
  pub seed_templates-seeds :
      (db : Db)
      → All (λ (i : SeedItem). IsSeeded i (seed_templates settings now db)) (seed settings)
        × ((o : String)
            → All (λ (i : SeedItem). (i.os =ₛ o) ≡ false) (seed settings)
            → first (has_os o) (seed_templates settings now db).templates
              ≡ first (has_os o) db.templates)
  unfolding seed_templates seed_defaults get
  seed_templates-seeds db = (
    seed_all-IsSeeded (seed settings) db (ground arith) (ground arith),
    λ o h. seed_all-other (seed settings) o db h,
  )
