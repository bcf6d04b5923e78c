-- ===== src/Dokploy/Redact/Hidden.antt =====
-- What is printed of a reply hides every sensitive value, and is not changed by another redaction.
use clusteration.Base.{ℕ, zero, suc, ◌≡◌, refl, ap, inl, inr, true, arith, Bool-cases}
use clusteration.Base.Json.{
  Json, Items, Fields, null, bool, num, real, str, arr, obj, nil, item, end, field,
}
use clusteration.Dokploy.Redact.{is_sensitive, redact, redact_items, redact_fields}

-- Below each sensitive key stands the mark, in dicts and lists of whatever depth.
mutual
  pub IsHidden : Json → Type 0
  IsHidden (obj d) = AreHiddenFields d
  IsHidden (arr xs) = AreHiddenItems xs
  IsHidden _ = Unit

  pub AreHiddenItems : Items → Type 0
  AreHiddenItems nil = Unit
  AreHiddenItems (item v xs) = IsHidden v × AreHiddenItems xs

  pub AreHiddenFields : Fields → Type 0
  AreHiddenFields end = Unit
  AreHiddenFields (field k v d) =
      (is_sensitive k ≡ true → v ≡ str "<redacted>") × IsHidden v × AreHiddenFields d

mutual
  unfolding redact redact_items redact_fields IsHidden AreHiddenItems AreHiddenFields

  redact-IsHidden_of : (v : Json) → IsHidden (redact v)
  redact-IsHidden_of (obj d) = redact_fields-AreHidden d
  redact-IsHidden_of (arr xs) = redact_items-AreHidden 20 xs
  redact-IsHidden_of null = tt
  redact-IsHidden_of (bool b) = tt
  redact-IsHidden_of (num z) = tt
  redact-IsHidden_of (real z text) = tt
  redact-IsHidden_of (str s) = tt

  redact_items-AreHidden : (n : ℕ) (xs : Items) → AreHiddenItems (redact_items n xs)
  redact_items-AreHidden n nil = tt
  redact_items-AreHidden zero (item v xs) = tt
  redact_items-AreHidden (suc n) (item v xs) = (redact-IsHidden_of v, redact_items-AreHidden n xs)

  redact_fields-AreHidden : (d : Fields) → AreHiddenFields (redact_fields d)
  redact_fields-AreHidden end = tt
  redact_fields-AreHidden (field k v d) = elim (Bool-cases (is_sensitive k)) [
    | inl p ↦ rw p ((λ e. refl), tt, redact_fields-AreHidden d)
    | inr p ↦ rw p ((λ e. absurd (ground arith)), redact-IsHidden_of v, redact_fields-AreHidden d)
  ]

mutual
  unfolding redact redact_items redact_fields

  redact_twice : (v : Json) → redact (redact v) ≡ redact v
  redact_twice (obj d) = ap obj (redact_fields_twice d)
  redact_twice (arr xs) = ap arr (redact_items_twice 20 xs)
  redact_twice null = refl
  redact_twice (bool b) = refl
  redact_twice (num z) = refl
  redact_twice (real z text) = refl
  redact_twice (str s) = refl

  redact_items_twice : (n : ℕ) (xs : Items) → redact_items n (redact_items n xs) ≡ redact_items n xs
  redact_items_twice zero nil = refl
  redact_items_twice (suc n) nil = refl
  redact_items_twice zero (item v xs) = refl
  redact_items_twice (suc n) (item v xs) = cc (redact_twice v, redact_items_twice n xs)

  redact_fields_twice : (d : Fields) → redact_fields (redact_fields d) ≡ redact_fields d
  redact_fields_twice end = refl
  redact_fields_twice (field k v d) = elim (Bool-cases (is_sensitive k)) [
    | inl p ↦ rw (p, redact_fields_twice d) refl
    | inr p ↦ rw (p, redact_twice v, redact_fields_twice d) refl
  ]

-- Below each sensitive key of what is printed stands the mark, in dicts and lists of whatever depth; and
-- to redact it again changes nothing.
pub redact-hides : (v : Json) → IsHidden (redact v) × (redact (redact v) ≡ redact v)
redact-hides v = (redact-IsHidden_of v, redact_twice v)
