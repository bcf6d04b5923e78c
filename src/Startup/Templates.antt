-- ===== src/Startup/Templates.antt =====
-- `seed_templates` of backend/app/services/lifecycle.py.
pub mod Seeded
use clusteration.Base.{
  ℕ, ◌+◌, String, Bool, true, false, List, [], ◌∷◌, ◌++◌, first, adjust, Option, none, some, ◌=ₛ◌,
  if◌then◌else◌,
}
use clusteration.Base.Json.{Json, Fields, str, num, bool, pos, field, end, insert, merge}
use clusteration.Entities.{Template}
use clusteration.Settings.{Settings}
use clusteration.Database.{Db}

pub record SeedItem : Type 0 where
  pub os : String
  pub name : String
  pub vmid : ℕ
  pub extra : Fields

-- `defaults` of an operating system, and of a prebuilt image
abbrev os_image : String → Fields
os_image version =
    field "family" (str "os")
      (field "version" (str version) (field "min_disk_gb" (num (pos 12)) end))

abbrev ai_image : String → Fields
ai_image bundle = field "family" (str "ai") (
    field "base" (str "ubuntu")
      (field "bundle" (str bundle) (field "min_disk_gb" (num (pos 16)) end)))

abbrev seed_item : String → String → ℕ → Fields → SeedItem
seed_item os name vmid extra = record { os = os; name = name; vmid = vmid; extra = extra }

abbrev pub seed : Settings → List SeedItem
seed s =
    seed_item "debian" "Debian 13 cloud-init (stable/latest)" s.template_debian_vmid
      (os_image "13/trixie")
    ∷ seed_item "ubuntu" "Ubuntu 26.04 LTS cloud-init (latest LTS)" s.template_ubuntu_vmid
        (os_image "26.04/resolute")
    ∷ seed_item "fedora" "Fedora Cloud 44 cloud-init (latest)" s.template_fedora_vmid
        (os_image "44")
    ∷ seed_item "hermes" "Hermes AI image (prebuilt)" s.template_hermes_vmid (ai_image "hermes")
    ∷ seed_item "openclaw" "OpenClaw AI image (prebuilt)" s.template_openclaw_vmid
        (ai_image "openclaw")
    ∷ seed_item "claude" "Claude CLI image (prebuilt)" s.template_claude_vmid (ai_image "claude")
    ∷ []

abbrev pub has_os : String → Template → Bool
has_os os t = t.os =ₛ os

unfoldable pub seed_defaults : Settings → SeedItem → Fields
unfolding merge
seed_defaults settings item =
    merge (field "enabled" (bool true) (field "node" (str settings.proxmox_default_node) end))
      item.extra

-- The row's own values stay, apart from the node.
unfoldable pub merged_defaults : Settings → SeedItem → Template → Fields
unfolding seed_defaults merge insert
merged_defaults settings item row =
    insert "node" (str settings.proxmox_default_node)
      (merge (seed_defaults settings item) row.defaults)

-- An assignment of an equal value leaves the row as it is.
abbrev pub refresh : Settings → SeedItem → Template → Template
unfolding merged_defaults
refresh settings item row = record row {
  name = item.name;
  proxmox_template_vmid = item.vmid;
  defaults = merged_defaults settings item row;
}

abbrev pub new_template : Settings → SeedItem → ℕ → ℕ → Template
unfolding seed_defaults
new_template settings item id now = record {
  id = id;
  name = item.name;
  os = item.os;
  proxmox_template_vmid = item.vmid;
  defaults = seed_defaults settings item;
  created_at = now;
}

seed_found : Settings → ℕ → SeedItem → Option Template → Db → Db
unfolding refresh new_template
seed_found settings now item none db = record db {
  templates = db.templates ++ new_template settings item db.next_id now ∷ [];
  next_id = db.next_id + 1;
}
seed_found settings now item (some row) db = record db {
  templates = adjust (has_os item.os) (refresh settings item) db.templates;
}

-- The column `os` is unique.
seed_one : Settings → ℕ → SeedItem → Db → Db
unfolding seed_found
seed_one settings now item db =
    seed_found settings now item (first (has_os item.os) db.templates) db

seed_all : Settings → ℕ → List SeedItem → Db → Db
unfolding seed_one
seed_all settings now [] db = db
seed_all settings now (item ∷ items) db =
    seed_all settings now items (seed_one settings now item db)

unfoldable pub seed_templates : Settings → ℕ → Db → Db
unfolding seed_all
seed_templates settings now db = seed_all settings now (seed settings) db
