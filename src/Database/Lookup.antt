-- ===== src/Database/Lookup.antt =====
-- Rows that are found again.
use clusteration.Base.{
  ℕ, ◌≡◌, refl, ◌==◌, Bool, List, [], ◌∷◌, ◌++◌, some, none, true, false, first, adjust, arith,
}

module _ {A : Type 0} (key : A → ℕ) where
  -- A row that is found by its key has that key.
  pub first-key : (k : ℕ) (xs : List A) (x : A) → first (λ a. key a == k) xs ≡ some x → key x ≡ k
  first-key k [] x h = cc h
  first-key k (a ∷ xs) x h = ground (arith, first-key k xs x)

  -- A row that is written back is found.
  pub first-adjust :
      (k : ℕ) (xs : List A) (x y : A)
      → first (λ a. key a == k) xs ≡ some x
      → key y ≡ k
      → first (λ a. key a == k) (adjust (λ a. key a == key y) (λ _. y) xs) ≡ some y
  first-adjust k [] x y h same = cc h
  first-adjust k (a ∷ xs) x y h same = ground (arith, first-adjust k xs x y)

  -- A row that is written back hides no other.
  pub first-adjust_other :
      (k : ℕ) (xs : List A) (y : A)
      → (key y ≡ k → ⊥)
      → first (λ a. key a == k) (adjust (λ a. key a == key y) (λ _. y) xs)
        ≡ first (λ a. key a == k) xs
  first-adjust_other k [] y other = refl
  first-adjust_other k (a ∷ xs) y other = ground (arith, first-adjust_other k xs y)

-- A new row hides no other.
pub first-append :
    {A : Type 0} (p : A → Bool) (xs ys : List A) (x : A)
    → first p xs ≡ some x
    → first p (xs ++ ys) ≡ some x
first-append p [] ys x h = cc h
first-append p (a ∷ xs) ys x h = ground (arith, first-append p xs ys x)

-- A new row is found where there was none.
pub first-append_none :
    {A : Type 0} (p : A → Bool) (xs : List A) (y : A)
    → first p xs ≡ none
    → p y ≡ true
    → first p (xs ++ y ∷ []) ≡ some y
first-append_none p [] y h q = rw q refl
first-append_none p (x ∷ xs) y h q = ground (arith, first-append_none p xs y)

-- A change of the rows that a query finds is found by that query.
pub first-adjust_found :
    {A : Type 0} (p : A → Bool) (f : A → A)
    → ((x : A) → p x ≡ true → p (f x) ≡ true)
    → (xs : List A) (x : A) → first p xs ≡ some x
    → first p (adjust p f xs) ≡ some (f x)
first-adjust_found p f k [] x h = cc h
first-adjust_found p f k (a ∷ xs) x h = ground (arith, k a, first-adjust_found p f k xs x)

-- A new row that a query does not find changes nothing for it, ...
pub first-append_other :
    {A : Type 0} (p : A → Bool) (xs : List A) (y : A)
    → p y ≡ false
    → first p (xs ++ y ∷ []) ≡ first p xs
first-append_other p [] y q = rw q refl
first-append_other p (x ∷ xs) y q = ground (arith, first-append_other p xs y q)

-- ... nor does a change of rows that it finds neither before nor after.
pub first-adjust_elsewhere :
    {A : Type 0} (p q : A → Bool) (f : A → A)
    → ((x : A) → q x ≡ true → (p x ≡ false) × (p (f x) ≡ false))
    → (xs : List A) → first p (adjust q f xs) ≡ first p xs
first-adjust_elsewhere p q f k [] = refl
first-adjust_elsewhere p q f k (x ∷ xs) = ground (arith, k x, first-adjust_elsewhere p q f k xs)
