-- ===== src/Base/Text/Suffix.antt =====
-- A text ends in a suffix exactly if something stands before it.
use Prim.Native.Nat.{◌+◌}
use Prim.Native.Char.{Char}
use Prim.Native.String.{String, [], ◌∷◌, ◌++◌}
use mathlib.Core.Path.{◌≡◌, refl, sym, ap, subst, ◌∙◌}
use mathlib.Core.Logic.{inl, inr, ◌↔◌}
use mathlib.Core.Bool.{false}
use mathlib.Core.Option.{some}
use native.Mathlib.Omega.{arith}
use text.Mathlib.TextEquality.{eq_iff}
use text.Mathlib.TextLemmas.{nil-append, cons-append}
use clusteration.Base.Tests.{◌=ₛ◌, Bool-cases, Option-cases, text_refl, some_inj}
use clusteration.Base.Text.{remove_suffix?, chars}

chars-append : (s t : String) → chars (s ++ t) ≡ chars s + chars t
unfolding chars
chars-append [] t = rw (nil-append t) (omega arith)
chars-append (c ∷ s) t = rw (cons-append c s t) (omega (arith, chars-append s t))

longer : (c : Char) (p t : String) → ((c ∷ (p ++ t)) =ₛ t) ≡ false
unfolding chars
longer c p t = elim (Bool-cases ((c ∷ (p ++ t)) =ₛ t)) [
  | inl q ↦ absurd (omega (arith, chars-append p t, ap chars ((eq_iff (c ∷ (p ++ t)) t).0 q)))
  | inr q ↦ q
]

remove_suffix?-sound : (s t p : String) → remove_suffix? s t ≡ some p → s ≡ p ++ t
unfolding remove_suffix?
remove_suffix?-sound [] t p h = elim (Bool-cases ([] =ₛ t)) [
  | inl q ↦
      subst (λ x. [] ≡ x ++ t) (some_inj [] p (ground arith))
        ((eq_iff [] t).0 q ∙ sym (nil-append t))
  | inr q ↦ absurd (ground arith)
]
remove_suffix?-sound (c ∷ s) t p h = elim (Bool-cases ((c ∷ s) =ₛ t)) [
  | inl q ↦
      subst (λ x. c ∷ s ≡ x ++ t) (some_inj _ p (ground arith))
        ((eq_iff (c ∷ s) t).0 q ∙ sym (nil-append t))
  | inr q ↦ elim (Option-cases (remove_suffix? s t)) [
    | inl r ↦ absurd (ground arith)
    | inr (p', r) ↦
        subst (λ x. c ∷ s ≡ x ++ t) (some_inj _ p (ground arith))
          (ap (λ x. c ∷ x) (remove_suffix?-sound s t p' r) ∙ sym (cons-append c p' t))
  ]
]

remove_suffix?-complete : (p t : String) → remove_suffix? (p ++ t) t ≡ some p
unfolding remove_suffix?
remove_suffix?-complete [] [] = refl
remove_suffix?-complete [] (c ∷ t) = rw (nil-append (c ∷ t), remove_suffix?, text_refl (c ∷ t)) refl
remove_suffix?-complete (c ∷ p) t =
    rw (cons-append c p t, remove_suffix?, longer c p t, remove_suffix?-complete p t) refl

-- `s` ends in `t`, with `p` before it.
pub remove_suffix?_iff : (s t p : String) → (remove_suffix? s t ≡ some p) ↔ (s ≡ p ++ t)
remove_suffix?_iff s t p = (
  remove_suffix?-sound s t p,
  λ e. subst (λ x. remove_suffix? x t ≡ some p) (sym e) (remove_suffix?-complete p t),
)
