-- ===== src/Base/Text/Order.antt =====
-- The order of texts is total and transitive.
use Prim.Native.String.{String, [], ◌∷◌}
use mathlib.Core.Path.{◌≡◌, refl}
use mathlib.Core.Bool.{true, false}
use native.Mathlib.Omega.{arith}
use clusteration.Base.Text.{str_leb}

pub str_leb_total : (s t : String) → str_leb s t ≡ false → str_leb t s ≡ true
unfolding str_leb
str_leb_total [] t h = ground arith
str_leb_total (c ∷ s) [] h = refl
str_leb_total (c ∷ s) (d ∷ t) h = ground (arith, str_leb_total s t)

pub str_leb_trans : (s t u : String) → str_leb s t ≡ true → str_leb t u ≡ true → str_leb s u ≡ true
unfolding str_leb
str_leb_trans [] t u p q = refl
str_leb_trans (c ∷ s) [] u p q = absurd (ground arith)
str_leb_trans (c ∷ s) (d ∷ t) [] p q = absurd (ground arith)
str_leb_trans (c ∷ s) (d ∷ t) (e ∷ u) p q = ground (arith, str_leb_trans s t u)
