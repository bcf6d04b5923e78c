-- ===== src/Auth/Reset/Rows.antt =====
-- The rows of the reset codes: what they satisfy, and how a change of one row keeps it.
use clusteration.Base.{
  ℕ, ◌≤◌, ◌<◌, ◌≡◌, refl, sym, subst, ◌∙◌, String, Bool, true, false, true≢false, Bool-cases, inl,
  inr, List, [], ◌∷◌, ◌++◌, ◌==◌, adjust, Option, none, some, if◌then◌else◌, arith, All, All-add,
}
use clusteration.Entities.{PasswordReset}
use clusteration.Auth.Reset.{is_open, use_up, newest, newest_from, latest}

module _ {ℓ κ} {A : Type ℓ} {P : A → Type κ} where
  pub All-adjust :
      (p : A → Bool) (f : A → A) (xs : List A)
      → All P xs
      → ((x : A) → p x ≡ true → P x → P (f x))
      → All P (adjust p f xs)
  All-adjust p f [] h k = tt
  All-adjust p f (x ∷ xs) (h, hs) k = (ground (arith, k x), All-adjust p f xs hs k)

  pub All-imp {λ'} : {Q : A → Type λ'} (xs : List A) → All P xs → ((x : A) → P x → Q x) → All Q xs
  All-imp [] h k = tt
  All-imp (x ∷ xs) (h, hs) k = (k x h, All-imp xs hs k)

module _ {ℓ κ λ'} {A : Type ℓ} {P Q : A → Type κ} {R : A → Type λ'} where
  pub All-imp2 : (xs : List A) → All P xs → All Q xs → ((x : A) → P x → Q x → R x) → All R xs
  All-imp2 [] h g k = tt
  All-imp2 (x ∷ xs) (h, hs) (g, gs) k = (k x h g, All-imp2 xs hs gs k)

abbrev pub AreBelow : ℕ → List PasswordReset → Type 0
AreBelow bound = All (λ (r : PasswordReset). r.id < bound)

abbrev pub HaveOwnIds : List PasswordReset → Type 0
HaveOwnIds [] = Unit
HaveOwnIds (r ∷ rs) = All (λ (x : PasswordReset). (x.id == r.id) ≡ false) rs × HaveOwnIds rs

abbrev pub AreClosed : String → List PasswordReset → Type 0
AreClosed uname = All (λ (r : PasswordReset). is_open uname r ≡ false)

-- At most one of the codes is open.
abbrev pub HaveOneOpen : String → List PasswordReset → Type 0
HaveOneOpen uname [] = Unit
HaveOneOpen uname (r ∷ rs) = if is_open uname r then AreClosed uname rs else HaveOneOpen uname rs

-- An open code has had at most six attempts.
abbrev pub AreTriedSixTimes : String → List PasswordReset → Type 0
AreTriedSixTimes uname = All (λ (r : PasswordReset). is_open uname r ≡ true → r.attempts ≤ 6)

-- The rows with this id are open.
abbrev pub IdIsOpen : String → ℕ → List PasswordReset → Type 0
IdIsOpen uname id = All (λ (r : PasswordReset). (r.id == id) ≡ true → is_open uname r ≡ true)

abbrev pub IdIsClosed : String → ℕ → List PasswordReset → Type 0
IdIsClosed uname id = All (λ (r : PasswordReset). (r.id == id) ≡ true → is_open uname r ≡ false)

pub HaveOwnIds-pairs :
    (rs : List PasswordReset)
    → HaveOwnIds rs
    → All (λ (r : PasswordReset). All (λ (x : PasswordReset). (x.id == r.id) ≡ true → x ≡ r) rs) rs
HaveOwnIds-pairs [] h = tt
HaveOwnIds-pairs (y ∷ ys) (hy, hs) = (
  ((λ _. refl), All-imp ys hy (λ x f e. absurd (true≢false (sym e ∙ f)))),
  All-imp2 ys hy (HaveOwnIds-pairs ys hs) (λ r f g. ((λ e. absurd (ground arith)), g)),
)

-- The row that a query finds is one of the rows, and it meets the query.
module _ {κ} (P : PasswordReset → Type κ) (p : PasswordReset → Bool) where
  newest_from-All :
      (rs : List PasswordReset) (best : Option PasswordReset) (found : PasswordReset)
      → All (λ (r : PasswordReset). p r ≡ true → P r) rs
      → ((r : PasswordReset) → best ≡ some r → P r)
      → newest_from p best rs ≡ some found
      → P found
  newest_from-All [] best found h k e = k found e
  newest_from-All (r ∷ rs) best found (h, hs) k e = elim (Bool-cases (p r)) [
    | inl q ↦ newest_from-All rs (latest best r) found hs (latest_lem best r (h q) k) (ground arith)
    | inr q ↦ newest_from-All rs best found hs k (ground arith)
  ]
    where
      latest_lem :
          (best : Option PasswordReset) (r : PasswordReset)
          → P r
          → ((r : PasswordReset) → best ≡ some r → P r)
          → (x : PasswordReset) → latest best r ≡ some x
          → P x
      latest_lem none r h k x e = ground arith
      latest_lem (some b) r h k x e = ground (arith, k b refl)

  pub newest-All :
      (rs : List PasswordReset) (found : PasswordReset)
      → All (λ (r : PasswordReset). p r ≡ true → P r) rs
      → newest p rs ≡ some found
      → P found
  newest-All rs found h e = newest_from-All rs none found h (λ r e. ground arith) e

pub AreClosed-HaveOneOpen :
    (uname : String) (rs : List PasswordReset) → AreClosed uname rs → HaveOneOpen uname rs
AreClosed-HaveOneOpen uname [] h = tt
AreClosed-HaveOneOpen uname (r ∷ rs) (h, hs) = rw h (AreClosed-HaveOneOpen uname rs hs)

module _ (uname : String) (changed : PasswordReset) where
  AreClosed-put :
      (rs : List PasswordReset)
      → IdIsOpen uname changed.id rs
      → AreClosed uname rs
      → AreClosed uname (adjust (λ (x : PasswordReset). x.id == changed.id) (λ _. changed) rs)
  AreClosed-put [] o c = tt
  AreClosed-put (r ∷ rs) (o, os) (c, cs) = (ground arith, AreClosed-put rs os cs)

  one_or_none :
      (r : PasswordReset) (rs : List PasswordReset)
      → AreClosed uname rs
      → HaveOneOpen uname (r ∷ rs)
  one_or_none r rs h = elim (Bool-cases (is_open uname r)) [
    | inl p ↦ rw p h
    | inr p ↦ rw p (AreClosed-HaveOneOpen uname rs h)
  ]

  open_first :
      (r : PasswordReset) (rs : List PasswordReset)
      → is_open uname r ≡ true
      → HaveOneOpen uname (r ∷ rs)
      → AreClosed uname rs
  open_first r rs p h = subst (λ b. if b then AreClosed uname rs else HaveOneOpen uname rs) p h

  kept :
      (r : PasswordReset) (rs : List PasswordReset)
      → IdIsOpen uname changed.id rs
      → HaveOneOpen uname (r ∷ rs)
      → (HaveOneOpen uname rs
          → HaveOneOpen uname
              (adjust (λ (x : PasswordReset). x.id == changed.id) (λ _. changed) rs))
      → HaveOneOpen uname (r ∷ adjust (λ (x : PasswordReset). x.id == changed.id) (λ _. changed) rs)
  kept r rs os h rest = elim (Bool-cases (is_open uname r)) [
    | inl p ↦ rw p (AreClosed-put rs os (open_first r rs p h))
    | inr p ↦ rw p (rest (subst (λ b. if b then AreClosed uname rs else HaveOneOpen uname rs) p h))
  ]

  pub HaveOneOpen-put :
      (rs : List PasswordReset)
      → IdIsOpen uname changed.id rs
      → HaveOneOpen uname rs
      → HaveOneOpen uname (adjust (λ (x : PasswordReset). x.id == changed.id) (λ _. changed) rs)
  HaveOneOpen-put [] o h = tt
  HaveOneOpen-put (r ∷ rs) (o, os) h = elim (Bool-cases (r.id == changed.id)) [
    | inl p ↦ rw p (one_or_none changed _ (AreClosed-put rs os (open_first r rs (o p) h)))
    | inr p ↦ rw p (kept r rs os h (HaveOneOpen-put rs os))
  ]

  -- The row that is put back has the id of the one that it replaces.
  fresh_put :
      (rs : List PasswordReset) (r : PasswordReset)
      → All (λ (x : PasswordReset). (x.id == r.id) ≡ false) rs
      → All
          (λ (x : PasswordReset). (x.id == (if r.id == changed.id then changed else r).id) ≡ false)
          (adjust (λ (x : PasswordReset). x.id == changed.id) (λ _. changed) rs)
  fresh_put [] r h = tt
  fresh_put (x ∷ xs) r (h, hs) = (ground arith, fresh_put xs r hs)

  pub HaveOwnIds-put :
      (rs : List PasswordReset)
      → HaveOwnIds rs
      → HaveOwnIds (adjust (λ (x : PasswordReset). x.id == changed.id) (λ _. changed) rs)
  HaveOwnIds-put [] h = tt
  HaveOwnIds-put (r ∷ rs) (h, hs) = (fresh_put rs r h, HaveOwnIds-put rs hs)

module _ (uname : String) (now : ℕ) where
  pub use_up-AreClosed :
      (rs : List PasswordReset) → AreClosed uname (adjust (is_open uname) (use_up now) rs)
  use_up-AreClosed [] = tt
  use_up-AreClosed (r ∷ rs) = (ground arith, use_up-AreClosed rs)

  use_up-fresh :
      (id : ℕ) (rs : List PasswordReset)
      → All (λ (x : PasswordReset). (x.id == id) ≡ false) rs
      → All (λ (x : PasswordReset). (x.id == id) ≡ false) (adjust (is_open uname) (use_up now) rs)
  use_up-fresh id rs h = All-adjust (is_open uname) (use_up now) rs h (λ x p q. q)

  pub use_up-HaveOwnIds :
      (rs : List PasswordReset)
      → HaveOwnIds rs
      → HaveOwnIds (adjust (is_open uname) (use_up now) rs)
  use_up-HaveOwnIds [] h = tt
  use_up-HaveOwnIds (r ∷ rs) (h, hs) = elim (Bool-cases (is_open uname r)) [
    | inl p ↦ rw p (use_up-fresh r.id rs h, use_up-HaveOwnIds rs hs)
    | inr p ↦ rw p (use_up-fresh r.id rs h, use_up-HaveOwnIds rs hs)
  ]

  pub HaveOneOpen-add :
      (rs : List PasswordReset) (new : PasswordReset)
      → AreClosed uname rs
      → HaveOneOpen uname (rs ++ new ∷ [])
  HaveOneOpen-add [] new c = elim (Bool-cases (is_open uname new)) [
    | inl p ↦ rw p tt
    | inr p ↦ rw p tt
  ]
  HaveOneOpen-add (r ∷ rs) new (c, cs) = rw c (HaveOneOpen-add rs new cs)

  pub HaveOwnIds-add :
      (rs : List PasswordReset) (new : PasswordReset)
      → AreBelow new.id rs
      → HaveOwnIds rs
      → HaveOwnIds (rs ++ new ∷ [])
  HaveOwnIds-add [] new b h = (tt, tt)
  HaveOwnIds-add (r ∷ rs) new (b, bs) (h, hs) = (
    All-add (λ (x : PasswordReset). (x.id == r.id) ≡ false) rs new h (ground arith),
    HaveOwnIds-add rs new bs hs,
  )
