-- ===== src/Lifecycle/Disk/Growth.antt =====
-- The check of a disk's size never makes the VM's disk smaller.
use mathlib.Core.Path.{subst}
use clusteration.Base.{
  ℕ, ◌≡◌, ◌≤◌, sym, refl, inl, inr, String, Option, none, some, ltb, ltb→lt, arith, Bool-cases,
}
use clusteration.Base.Exec.{Exec, ProxmoxKind, gets, ◌>>=◌}
use clusteration.Base.Exec.Keeps.{Keeps}
use clusteration.Base.Exec.Then.{Then, Then-after, Then-keeps, Then-holds, Post}
use clusteration.Entities.{Vm}
use clusteration.Proxmox.{Transport}
use clusteration.Lifecycle.{Run}
use clusteration.Lifecycle.Holds.{Holds, holds_rules}
use clusteration.Lifecycle.Disk.{keep_larger, resize_failed, grow, settle_size, ensure_disk_size}

abbrev IsAtLeast : ℕ → Vm → Type 0
IsAtLeast gb v = gb ≤ v.disk_gb

abbrev IsExactly : ℕ → Vm → Type 0
IsExactly gb v = v.disk_gb ≡ gb

module _ {N : Type 0} (t : Transport N) (phase : String) (vmid gb : ℕ) where
  keep_larger-IsAtLeast :
      (current : ℕ) → Keeps (Holds (IsAtLeast gb)) (keep_larger t phase vmid gb current)
  unfolding keep_larger Holds
  keep_larger-IsAtLeast current = elim (Bool-cases (ltb gb current)) [
    | inl p ↦
        let larger : gb ≤ current = omega (arith, ltb→lt gb current p) in
        rw (keep_larger, p) (search (holds_rules, larger))
    | inr p ↦ rw (keep_larger, p) (search holds_rules)
  ]

  resize_failed-IsAtLeast :
      (current : Option ℕ) (kind : ProxmoxKind) (msg : String)
      → Keeps (Holds (IsAtLeast gb)) (resize_failed t phase vmid gb current kind msg)
  unfolding resize_failed
  resize_failed-IsAtLeast none kind msg = search holds_rules
  resize_failed-IsAtLeast (some n) kind msg = search holds_rules

  grow-IsAtLeast :
      (current : Option ℕ) → Keeps (Holds (IsAtLeast gb)) (grow t phase vmid gb current)
  unfolding grow
  grow-IsAtLeast current = search (holds_rules, resize_failed-IsAtLeast) depth 12

  settle_size-IsAtLeast :
      (current : Option ℕ) → Keeps (Holds (IsAtLeast gb)) (settle_size t phase vmid gb current)
  unfolding settle_size
  settle_size-IsAtLeast none = grow-IsAtLeast none
  settle_size-IsAtLeast (some n) = search (holds_rules, keep_larger-IsAtLeast, grow-IsAtLeast)

  exactly-IsAtLeast : (r : Run N) → Holds (IsExactly gb) r → Holds (IsAtLeast gb) r
  unfolding Holds
  exactly-IsAtLeast r h = omega arith

  -- The requested size is the one that the row has.
  requested-Then :
      (k : ℕ → Exec (Run N) Unit)
      → Keeps (Holds (IsAtLeast gb)) (k gb)
      → Then
          (Holds (IsExactly gb))
          (gets (λ r. r.vm.disk_gb) >>= k)
          (λ _. Holds (IsAtLeast gb))
          (Holds (IsAtLeast gb))
  unfolding Holds ◌>>=◌
  requested-Then k keeps = record {
    at = λ r h.
        subst (λ n. Post (λ _. Holds (IsAtLeast gb)) (Holds (IsAtLeast gb)) (k n r)) (sym h)
          ((Then-keeps (k gb) keeps (λ _ r h. h) (λ r h. h)).at r (omega arith));
  }

  ensure_disk_size-Then :
      Then
        (Holds (IsExactly gb))
        (ensure_disk_size t phase vmid)
        (λ _. Holds (IsAtLeast gb))
        (Holds (IsAtLeast gb))
  unfolding ensure_disk_size
  ensure_disk_size-Then =
      search (Then-after, holds_rules, exactly-IsAtLeast, requested-Then, settle_size-IsAtLeast)
        depth 12

module _ {N : Type 0} (t : Transport N) where
  -- The check of a disk's size leaves the VM's row with a disk that is as large as before or larger,
  -- whatever Proxmox says of the disk and whether the check returns or raises.
  pub ensure_disk_size-grows :
      (phase : String) (vmid : ℕ) (r : Run N)
      → r.vm.disk_gb ≤ (ensure_disk_size t phase vmid r).1.vm.disk_gb
  unfolding Holds
  ensure_disk_size-grows phase vmid r =
      Then-holds (ensure_disk_size t phase vmid) (ensure_disk_size-Then t phase vmid r.vm.disk_gb) r
        refl
