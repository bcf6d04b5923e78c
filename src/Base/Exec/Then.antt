-- ===== src/Base/Exec/Then.antt =====
-- What holds behind a call: one condition where it returns, with its value, and one where it raises.
use clusteration.Base.Exec.{Result, ok, err, Exec, ◌>>=◌}
use clusteration.Base.Exec.Keeps.{Keeps}

abbrev pub Post {ℓ} : {S A : Type ℓ} → (A → S → Type ℓ) → (S → Type ℓ) → Result A × S → Type ℓ
Post Q E (ok a, s) = Q a s
Post Q E (err e, s) = E s

-- From `P`, `m` comes to `Q` with its value, or to `E` with an exception.
pub record Then {ℓ} {S A : Type ℓ} (P : S → Type ℓ) (m : Exec S A) (Q : A → S → Type ℓ)
    (E : S → Type ℓ) : Type ℓ where
  pub at : (s : S) → P s → Post Q E (m s)

module _ {ℓ} {S A : Type ℓ} {P : S → Type ℓ} {Q : A → S → Type ℓ} {E : S → Type ℓ} where
  Post-of_keeps :
      (r : Result A) (s : S)
      → P s
      → ((a : A) (s : S) → P s → Q a s)
      → ((s : S) → P s → E s)
      → Post Q E (r, s)
  Post-of_keeps (ok a) s h q e = q a s h
  Post-of_keeps (err x) s h q e = e s h

  -- What a call keeps holds behind it.
  pub Then-keeps :
      (m : Exec S A)
      → Keeps P m
      → ((a : A) (s : S) → P s → Q a s)
      → ((s : S) → P s → E s)
      → Then P m Q E
  Then-keeps m k q e = record { at = λ s h. let (r, s') = m s in Post-of_keeps r s' (k.at s h) q e }

module _ {ℓ} {S A B : Type ℓ} {Q : B → S → Type ℓ} {E : S → Type ℓ} where
  Post-continued :
      (R : A → S → Type ℓ) (f : A → Exec S B)
      → ((a : A) → Then (R a) (f a) Q E)
      → (r : Result A) (s : S) → Post R E (r, s)
      → Post Q E (((λ _. (r, s)) >>= f) s)
  unfolding ◌>>=◌
  Post-continued R f tf (ok a) s h = (tf a).at s h
  Post-continued R f tf (err e) s h = h

module _ {ℓ} {S A B : Type ℓ} {P : S → Type ℓ} {Q : B → S → Type ℓ} {E : S → Type ℓ} where
  pub Then-bind :
      (R : A → S → Type ℓ) (m : Exec S A) (f : A → Exec S B)
      → Then P m R E
      → ((a : A) → Then (R a) (f a) Q E)
      → Then P (m >>= f) Q E
  unfolding ◌>>=◌
  Then-bind R m f tm tf = record {
    at = λ s h. let (r, s') = m s in Post-continued R f tf r s' (tm.at s h);
  }

  -- The first call keeps what holds before it, and what a raise may leave.
  pub Then-after :
      (m : Exec S A) (f : A → Exec S B)
      → Keeps P m
      → ((s : S) → P s → E s)
      → ((a : A) → Then P (f a) Q E)
      → Then P (m >>= f) Q E
  Then-after m f k e tf = Then-bind (λ _. P) m f (Then-keeps m k (λ a s h. h) e) tf

module _ {ℓ} {S A : Type ℓ} (E : S → Type ℓ) where
  post_holds : (r : Result A) (s : S) → Post (λ _. E) E (r, s) → E s
  post_holds (ok a) s h = h
  post_holds (err e) s h = h

module _ {ℓ} {S A : Type ℓ} {P : S → Type ℓ} {E : S → Type ℓ} where
  -- A condition that holds behind a call, whether it returns or raises.
  pub Then-holds : (m : Exec S A) → Then P m (λ _. E) E → (s : S) → P s → E (m s).1
  Then-holds m k s h = let (r, s') = m s in post_holds E r s' (k.at s h)
