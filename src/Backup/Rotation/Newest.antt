-- ===== src/Backup/Rotation/Newest.antt =====
-- What the rotation leaves: the newest snapshots, and all the other files.
use clusteration.Base.{
  ℕ, zero, suc, ◌-◌, ◌≤◌, ◌≡◌, refl, sym, ap, subst, ◌∙◌, String, Bool, true, false, not, ◌&&◌,
  ◌||◌, List, ◌++◌, length, take, drop, length-drop, arith,
}
use clusteration.Backup.{System, is_snapshot, sorted, snapshots, outdated, has, remove_all, rotate}
use clusteration.Backup.Rotation.{
  has-append, has-keep, has-sorted, take-append-drop, AreDistinct, AreDistinct-apart,
  sorted-AreDistinct, keep-AreDistinct, sorted-IsAscending, AreOlder, take-AreOlder,
}

-- The last `n` of the sorted snapshots.
abbrev pub newest_snapshots : ℕ → List String → List String
newest_snapshots n files = let snaps = sorted (snapshots files) in drop (length snaps - n) snaps

outdated_suc :
    (n : ℕ) (snaps : List String) → 1 ≤ n → outdated n snaps ≡ take (length snaps - n) snaps
unfolding outdated
outdated_suc zero snaps h = absurd (omega arith)
outdated_suc (suc n) snaps h = refl

module _ (sys : System) (removable : (name : String) → sys.removes name ≡ true) where
  has-remove_all :
      (y : String) (olds files : List String)
      → has y (remove_all sys olds files) ≡ (not (has y olds) && has y files)
  unfolding remove_all
  has-remove_all y olds files =
      ground
        (arith, has-keep y (λ name. not (has name olds && sys.removes name)) files, removable y)

  -- Of a name, by whether it is a snapshot, in the directory, outdated, and among the newest.
  has_cases :
      (snapshot file olds news : Bool)
      → (snapshot && file) ≡ (olds || news)
      → (olds ≡ true → news ≡ false)
      → ((snapshot && (not olds && file)) ≡ news) × (snapshot ≡ false → (not olds && file) ≡ file)
  has_cases snapshot file olds news e apart = ground arith

  has-rotate :
      (n : ℕ) (files : List String) (y : String)
      → 1 ≤ n
      → AreDistinct files
      → (has y (snapshots (rotate sys n files)) ≡ has y (newest_snapshots n files))
        × (is_snapshot y ≡ false → has y (rotate sys n files) ≡ has y files)
  unfolding rotate snapshots
  has-rotate n files y h d =
      let snaps = sorted (snapshots files) in
      let olds = outdated n snaps in
      let split : olds ++ newest_snapshots n files ≡ snaps =
        ap (λ xs. xs ++ newest_snapshots n files) (outdated_suc n snaps h)
        ∙ take-append-drop (length snaps - n) snaps in
      let distinct = sorted-AreDistinct (snapshots files) (keep-AreDistinct is_snapshot files d) in
      let cases =
        has_cases (is_snapshot y) (has y files) (has y olds) (has y (newest_snapshots n files))
          (sym (has-keep y is_snapshot files)
            ∙ sym (has-sorted y (snapshots files))
            ∙ ap (has y) (sym split)
            ∙ has-append y olds (newest_snapshots n files))
          (AreDistinct-apart y olds (newest_snapshots n files)
            (subst AreDistinct (sym split) distinct)) in
      (
        has-keep y is_snapshot (rotate sys n files)
            ∙ ap (λ b. is_snapshot y && b) (has-remove_all y olds files)
            ∙ cases.0,
        λ q. has-remove_all y olds files ∙ cases.1 q,
      )

  -- Behind a rotation to `n` files, one at least, of a directory where every file can be removed, exactly
  -- the newest `n` snapshots are left, and those that are gone are not newer than these; every other
  -- file is still there.
  pub rotate-keeps_newest :
      (n : ℕ) (files : List String)
      → 1 ≤ n
      → AreDistinct files
      → ((y : String) → has y (snapshots (rotate sys n files)) ≡ has y (newest_snapshots n files))
        × (length (newest_snapshots n files) ≤ n)
        × AreOlder (outdated n (sorted (snapshots files))) (newest_snapshots n files)
        × ((y : String) → is_snapshot y ≡ false → has y (rotate sys n files) ≡ has y files)
  rotate-keeps_newest n files h d =
      let snaps = sorted (snapshots files) in
      (
        λ y. (has-rotate n files y h d).0,
        omega (arith, length-drop (length snaps - n) snaps),
        subst (λ olds. AreOlder olds (newest_snapshots n files)) (sym (outdated_suc n snaps h))
            (take-AreOlder (length snaps - n) snaps (sorted-IsAscending (snapshots files))),
        λ y. (has-rotate n files y h d).1,
      )
