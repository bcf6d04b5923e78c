-- ===== src/Backup/Rotation.antt =====
-- The rotation keeps the newest snapshots, and nothing else is removed.
pub mod Newest
use clusteration.Base.{
  ℕ, zero, suc, ◌+◌, ◌-◌, ◌≤◌, ◌<◌, ◌≡◌, refl, sym, ap, subst, ◌∙◌, inl, inr, String, Bool, true,
  false, true≢false, not, ◌&&◌, ◌||◌, List, [], ◌∷◌, ◌++◌, length, take, drop, keep, any, All,
  length-drop, ◌=ₛ◌, if◌then◌else◌, arith, Bool-cases, eq_iff, text_refl, text_differ,
}
use clusteration.Base.Text.{str_leb}
use clusteration.Base.Text.Order.{str_leb_total, str_leb_trans}
use clusteration.Backup.{
  System, is_snapshot, insert_sorted, sorted, snapshots, outdated, has, remove_all, rotate,
}

has-append : (y : String) (xs ys : List String) → has y (xs ++ ys) ≡ (has y xs || has y ys)
has-append y [] ys = refl
has-append y (x ∷ xs) ys = ground (arith, has-append y xs ys)

has-insert_sorted :
    (y x : String) (xs : List String) → has y (insert_sorted x xs) ≡ ((y =ₛ x) || has y xs)
unfolding insert_sorted
has-insert_sorted y x [] = refl
has-insert_sorted y x (z ∷ zs) = ground (arith, has-insert_sorted y x zs)

has-sorted : (y : String) (xs : List String) → has y (sorted xs) ≡ has y xs
unfolding sorted
has-sorted y [] = refl
has-sorted y (x ∷ xs) =
    has-insert_sorted y x (sorted xs) ∙ ap (λ b. (y =ₛ x) || b) (has-sorted y xs)

has-keep :
    (y : String) (p : String → Bool) (xs : List String) → has y (keep p xs) ≡ (p y && has y xs)
has-keep y p [] = ground arith
has-keep y p (x ∷ xs) = elim (Bool-cases (y =ₛ x)) [
  | inl e ↦ ground (arith, e, ap p ((eq_iff y x).0 e), has-keep y p xs)
  | inr e ↦ ground (arith, has-keep y p xs)
]

take-append-drop : (n : ℕ) (xs : List String) → take n xs ++ drop n xs ≡ xs
take-append-drop zero xs = refl
take-append-drop (suc n) [] = refl
take-append-drop (suc n) (x ∷ xs) = ap (λ ys. x ∷ ys) (take-append-drop n xs)

-- The names of the files of a directory are distinct.
abbrev pub AreDistinct : List String → Type 0
AreDistinct [] = Unit
AreDistinct (x ∷ xs) = (has x xs ≡ false) × AreDistinct xs

insert_sorted-AreDistinct :
    (x : String) (xs : List String)
    → has x xs ≡ false
    → AreDistinct xs
    → AreDistinct (insert_sorted x xs)
unfolding insert_sorted
insert_sorted-AreDistinct x [] h d = (refl, tt)
insert_sorted-AreDistinct x (y ∷ ys) h (f, d) = elim (Bool-cases (str_leb x y)) [
  | inl p ↦ rw p (h, (f, d))
  | inr p ↦ rw p (
    ground (arith, has-insert_sorted y x ys, text_differ x y),
    insert_sorted-AreDistinct x ys (ground arith) d,
  )
]

sorted-AreDistinct : (xs : List String) → AreDistinct xs → AreDistinct (sorted xs)
unfolding sorted
sorted-AreDistinct [] d = tt
sorted-AreDistinct (x ∷ xs) (h, d) =
    insert_sorted-AreDistinct x (sorted xs) (has-sorted x xs ∙ h) (sorted-AreDistinct xs d)

keep-AreDistinct : (p : String → Bool) (xs : List String) → AreDistinct xs → AreDistinct (keep p xs)
keep-AreDistinct p [] d = tt
keep-AreDistinct p (x ∷ xs) (h, d) = elim (Bool-cases (p x)) [
  | inl e ↦ rw e (ground (arith, has-keep x p xs), keep-AreDistinct p xs d)
  | inr e ↦ rw e (keep-AreDistinct p xs d)
]

AreDistinct-apart :
    (y : String) (xs ys : List String) → AreDistinct (xs ++ ys) → has y xs ≡ true → has y ys ≡ false
AreDistinct-apart y [] ys d h = absurd (true≢false (sym h))
AreDistinct-apart y (x ∷ xs) ys (f, d) h = elim (Bool-cases (y =ₛ x)) [
  | inl e ↦
      ground (
        arith,
        has-append y xs ys,
        subst (λ z. has z (xs ++ ys) ≡ false) (sym ((eq_iff y x).0 e)) f,
      )
  | inr e ↦ AreDistinct-apart y xs ys d (ground arith)
]

-- Each name is at most those behind it.
abbrev pub IsAscending : List String → Type 0
IsAscending [] = Unit
IsAscending (x ∷ xs) = All (λ (y : String). str_leb x y ≡ true) xs × IsAscending xs

All-insert_sorted {κ} :
    (P : String → Type κ) (x : String) (xs : List String)
    → P x
    → All P xs
    → All P (insert_sorted x xs)
unfolding insert_sorted
All-insert_sorted P x [] p h = (p, tt)
All-insert_sorted P x (y ∷ ys) p (h, hs) = elim (Bool-cases (str_leb x y)) [
  | inl q ↦ rw q (p, (h, hs))
  | inr q ↦ rw q (h, All-insert_sorted P x ys p hs)
]

All-below :
    (x y : String) (ys : List String)
    → str_leb x y ≡ true
    → All (λ (z : String). str_leb y z ≡ true) ys
    → All (λ (z : String). str_leb x z ≡ true) ys
All-below x y [] p h = tt
All-below x y (z ∷ zs) p (h, hs) = (str_leb_trans x y z p h, All-below x y zs p hs)

insert_sorted-IsAscending :
    (x : String) (xs : List String) → IsAscending xs → IsAscending (insert_sorted x xs)
unfolding insert_sorted
insert_sorted-IsAscending x [] h = (tt, tt)
insert_sorted-IsAscending x (y ∷ ys) (h, hs) = elim (Bool-cases (str_leb x y)) [
  | inl p ↦ rw p ((p, All-below x y ys p h), (h, hs))
  | inr p ↦ rw p (
    All-insert_sorted (λ (z : String). str_leb y z ≡ true) x ys (str_leb_total x y p) h,
    insert_sorted-IsAscending x ys hs,
  )
]

sorted-IsAscending : (xs : List String) → IsAscending (sorted xs)
unfolding sorted
sorted-IsAscending [] = tt
sorted-IsAscending (x ∷ xs) = insert_sorted-IsAscending x (sorted xs) (sorted-IsAscending xs)

-- The first of an ascending list are at most the rest.
abbrev pub AreOlder : List String → List String → Type 0
AreOlder olds news = All (λ (r : String). All (λ (k : String). str_leb r k ≡ true) news) olds

All-drop {κ} : (P : String → Type κ) (n : ℕ) (xs : List String) → All P xs → All P (drop n xs)
All-drop P zero xs h = h
All-drop P (suc n) [] h = tt
All-drop P (suc n) (x ∷ xs) (h, hs) = All-drop P n xs hs

take-AreOlder : (n : ℕ) (xs : List String) → IsAscending xs → AreOlder (take n xs) (drop n xs)
take-AreOlder zero xs h = tt
take-AreOlder (suc n) [] h = tt
take-AreOlder (suc n) (x ∷ xs) (h, hs) =
    (All-drop (λ (y : String). str_leb x y ≡ true) n xs h, take-AreOlder n xs hs)
