-- ===== src/Base/Text.antt =====
-- Python's `str` methods on the native texts. Case mapping is that of ASCII; the other characters
-- stay as they are. White space is Python's whole set.
pub mod Suffix
pub mod Order
use Prim.Native.Nat.{ℕ, zero, suc, ◌/◌, ◌%◌}
use Prim.Native.Char.{Char, code}
use Prim.Native.String.{String, [], ◌∷◌, ◌++◌}
use mathlib.Core.Path.{◌≡◌, refl}
use mathlib.Core.Bool.{Bool, true, false, ◌&&◌, ◌||◌}
use mathlib.Core.Option.{Option, none, some}
use mathlib.Core.List.{List}
use clusteration.Base.Tests.{ltb, leb, ◌==◌, ◌=ₛ◌, if◌then◌else◌}

abbrev translate : String → String → Char → Char
translate [] ls c = c
translate (u ∷ us) [] c = c
translate (u ∷ us) (l ∷ ls) c = if code c == code u then l else translate us ls c

lower_char : Char → Char
lower_char = translate "ABCDEFGHIJKLMNOPQRSTUVWXYZ" "abcdefghijklmnopqrstuvwxyz"

-- `s.lower()`
unfoldable pub lower : String → String
unfolding lower_char
lower [] = []
lower (c ∷ s) = lower_char c ∷ lower s

is_space : Char → Bool
is_space ch =
    let c = code ch in
    (leb 9 c && leb c 13)
    || (leb 28 c && leb c 32)
    || c == 133
    || c == 160
    || c == 5760
    || (leb 8192 c && leb c 8202)
    || c == 8232
    || c == 8233
    || c == 8239
    || c == 8287
    || c == 12288

lstrip : String → String
unfolding is_space
lstrip [] = []
lstrip (c ∷ s) = elim (is_space c) [ true ↦ lstrip s | false ↦ c ∷ s ]

-- The trailing white space goes: a character stays if it is none, or if something stays behind it.
rstrip : String → String
unfolding is_space
rstrip [] = []
rstrip (c ∷ s) = let rest = rstrip s in if is_space c && rest =ₛ "" then "" else c ∷ rest

-- `s.strip()`
unfoldable pub strip : String → String
unfolding lstrip rstrip
strip s = rstrip (lstrip s)

-- `s.startswith(p)`
unfoldable pub startswith : String → String → Bool
startswith s [] = true
startswith [] (d ∷ p) = false
startswith (c ∷ s) (d ∷ p) = code c == code d && startswith s p

-- `p in s`
unfoldable pub contains : String → String → Bool
unfolding startswith
contains [] p = startswith [] p
contains (c ∷ s) p = startswith (c ∷ s) p || contains s p

-- `s.split(sep, 1)[0]`, and `s.split(sep)[0]`, for a separator of one character
unfoldable pub before : String → Char → String
before [] sep = []
before (c ∷ s) sep = let rest = before s sep in if code c == code sep then [] else c ∷ rest

-- `s.split(sep, 1)[1]`, where there is a separator
unfoldable pub after? : String → Char → Option String
after? [] sep = none
after? (c ∷ s) sep = let rest = after? s sep in if code c == code sep then some s else rest

-- `s.endswith(t)` and `s[:-len(t)]` in one: what stands before the suffix.
unfoldable pub remove_suffix? : String → String → Option String
remove_suffix? [] t = if [] =ₛ t then some [] else none
remove_suffix? (c ∷ s) t =
    let rest = remove_suffix? s t in
    if (c ∷ s) =ₛ t then some [] else elim rest [ none ↦ none | some p ↦ some (c ∷ p) ]

-- `s[:n]`
unfoldable pub take_chars : ℕ → String → String
take_chars zero s = []
take_chars (suc n) [] = []
take_chars (suc n) (c ∷ s) = c ∷ take_chars n s

-- `s[n:]`
unfoldable pub drop_chars : ℕ → String → String
drop_chars zero s = s
drop_chars (suc n) [] = []
drop_chars (suc n) (c ∷ s) = drop_chars n s

-- `sep.join(xs)`
unfoldable pub join : String → List String → String
join sep List.[] = ""
join sep (List.◌∷◌ x List.[]) = x
join sep (List.◌∷◌ x (List.◌∷◌ y xs)) = x ++ sep ++ join sep (List.◌∷◌ y xs)

digit : ℕ → String
digit zero = "0"
digit (suc zero) = "1"
digit (suc (suc zero)) = "2"
digit (suc (suc (suc zero))) = "3"
digit (suc (suc (suc (suc zero)))) = "4"
digit (suc (suc (suc (suc (suc zero))))) = "5"
digit (suc (suc (suc (suc (suc (suc zero)))))) = "6"
digit (suc (suc (suc (suc (suc (suc (suc zero))))))) = "7"
digit (suc (suc (suc (suc (suc (suc (suc (suc zero)))))))) = "8"
digit _ = "9"

decimal_from : ℕ → ℕ → String
unfolding digit
decimal_from zero n = digit n
decimal_from (suc fuel) n =
    let more = decimal_from fuel (n / 10) ++ digit (n % 10) in if ltb n 10 then digit n else more

-- `str(n)`; a number has no more digits than its value.
unfoldable pub show : ℕ → String
unfolding decimal_from
show n = decimal_from n n

-- `len(s)`
unfoldable pub chars : String → ℕ
chars [] = 0
chars (c ∷ s) = suc (chars s)

is_line_break : Char → Bool
is_line_break ch =
    let c = code ch in
    (leb 10 c && leb c 13) || (leb 28 c && leb c 30) || c == 133 || c == 8232 || c == 8233

-- The rest of a line break: the second half of a `\r\n` goes with the first.
abbrev behind_break : ℕ → String → String
behind_break c [] = []
behind_break c (d ∷ s) = if c == 13 && code d == 10 then s else d ∷ s

-- The lines from a character on: the first line, as far as it goes, and the others.
lines_from : ℕ → String → String → List String
unfolding is_line_break
lines_from zero line s = List.[]
lines_from (suc fuel) line [] = if line =ₛ "" then List.[] else List.◌∷◌ line List.[]
lines_from (suc fuel) line (c ∷ s) =
    let rest = lines_from fuel "" (behind_break (code c) s) in
    let more = lines_from fuel (line ++ (c ∷ [])) s in
    if is_line_break c then List.◌∷◌ line rest else more

-- `s.splitlines()`; each step takes a character.
unfoldable pub lines : String → List String
unfolding lines_from chars
lines s = lines_from (suc (chars s)) "" s

-- `s <= t`, by the code points
unfoldable pub str_leb : String → String → Bool
str_leb [] t = true
str_leb (c ∷ s) [] = false
str_leb (c ∷ s) (d ∷ t) =
    let rest = str_leb s t in
    if ltb (code c) (code d) then true else if code c == code d then rest else false

-- The zeros that `s` lacks to be `n` characters wide.
unfoldable pub zeros : ℕ → String → String
zeros zero s = ""
zeros (suc n) [] = "0" ++ zeros n []
zeros (suc n) (c ∷ s) = zeros n s

lines_runs : lines "a\r\n\nbc\n" ≡ List.◌∷◌ "a" (List.◌∷◌ "" (List.◌∷◌ "bc" List.[]))
unfolding lines
lines_runs = refl

lower_runs : lower "PvE-1 Ã" ≡ "pve-1 Ã"
unfolding lower
lower_runs = refl

strip_runs : strip "  a b\n" ≡ "a b"
unfolding strip
strip_runs = refl

contains_runs : contains "VMID 7 não encontrado no cluster" "não encontrado" ≡ true
unfolding contains
contains_runs = refl

before_runs : before "app.example:8080" ":" ≡ "app.example"
unfolding before
before_runs = refl

suffix_runs : remove_suffix? "shop.apps.internal" ".apps.internal" ≡ some "shop"
unfolding remove_suffix?
suffix_runs = refl

show_runs : show 9012 ≡ "9012"
unfolding show
show_runs = refl
