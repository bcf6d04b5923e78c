-- ===== src/Proxmox/Parse/Sizes.antt =====
-- The size of a disk that Proxmox reports, in GiB.
use clusteration.Base.{ℕ, suc, ◌+◌, ◌*◌, max, ◌≡◌, ◌≤◌, ◌<◌, some, refl, leb, true, arith}
use clusteration.Base.Json.{Fields, pos, get, int}
use clusteration.Proxmox.Parse.{gib, two_53, double_of, ceil_div, disk_size_gb_from_resource}

ceil_div-covers : (n : ℕ) → n ≤ ceil_div n gib * gib
ceil_div-covers n = omega arith

ceil_div-least : (n : ℕ) → ceil_div n gib * gib < n + gib
ceil_div-least n = omega arith

-- The size of a disk of at most 2 ** 53 bytes is the least number of GiB that holds them.
pub disk_size_gb_from_resource-rounds_up :
    (resource : Fields) (bytes : ℕ)
    → int (get "maxdisk" resource) ≡ some (pos (suc bytes))
    → suc bytes ≤ two_53
    → (gb : ℕ) × (disk_size_gb_from_resource (some resource) ≡ some gb)
      × (suc bytes ≤ gb * gib)
      × (gb * gib < suc bytes + gib)
unfolding disk_size_gb_from_resource double_of
disk_size_gb_from_resource-rounds_up resource bytes h exact =
    let small : leb (suc bytes) two_53 ≡ true = ground arith in
    (max 1 (ceil_div (suc bytes) gib), rw (h, small) refl, omega arith, omega arith)
