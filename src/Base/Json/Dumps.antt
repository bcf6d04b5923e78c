-- ===== src/Base/Json/Dumps.antt =====
-- `json.dumps(value, ensure_ascii=True)`
use Prim.Native.Char.{Char, code}
use Prim.Native.Nat.{ℕ, suc, ◌+◌, ◌-◌, ◌/◌, ◌%◌}
use Prim.Native.String.{String, [], ◌∷◌, ◌++◌}
use mathlib.Core.Path.{◌≡◌, refl}
use mathlib.Core.Bool.{true, false, ◌||◌}
use clusteration.Base.Tests.{ltb, leb, ◌==◌, if◌then◌else◌}
use clusteration.Base.Text.{show, take_chars, drop_chars}
use clusteration.Base.Json.{
  Json, Items, Fields, pos, negsuc, null, bool, num, real, str, arr, obj, nil, item, end, field,
}

hex_digit : ℕ → String
unfolding take_chars drop_chars
hex_digit n = take_chars 1 (drop_chars n "0123456789abcdef")

-- `\uXXXX`
unit : ℕ → String
unfolding hex_digit
unit n =
    "\\u"
    ++ hex_digit (n / 4096)
    ++ hex_digit (n / 256 % 16)
    ++ hex_digit (n / 16 % 16)
    ++ hex_digit (n % 16)

-- A character beyond 16 bits is a pair of surrogates.
unicode : ℕ → String
unfolding unit
unicode n =
    if ltb n 0x1_0000
    then unit n
    else unit (0xd800 + (n - 0x1_0000) / 1024) ++ unit (0xdc00 + (n - 0x1_0000) % 1024)

dumped_char : Char → String
unfolding unicode
dumped_char ch =
    let c = code ch in
    if c == 34
    then "\\\""
    else if c == 92
    then "\\\\"
    else if c == 10
    then "\\n"
    else if c == 13
    then "\\r"
    else if c == 9
    then "\\t"
    else if c == 8
    then "\\b"
    else if c == 12
    then "\\f"
    else if ltb c 32 || leb 127 c
    then unicode c
    else ch ∷ []

dumped_chars : String → String
unfolding dumped_char
dumped_chars [] = ""
dumped_chars (c ∷ s) = dumped_char c ++ dumped_chars s

dumped_str : String → String
unfolding dumped_chars
dumped_str s = "\"" ++ dumped_chars s ++ "\""

unfoldable mutual
  unfolding show dumped_str

  pub dumps : Json → String
  dumps null = "null"
  dumps (bool true) = "true"
  dumps (bool false) = "false"
  dumps (num (pos n)) = show n
  dumps (num (negsuc n)) = "-" ++ show (suc n)
  dumps (real _ text) = text
  dumps (str s) = dumped_str s
  dumps (arr xs) = "[" ++ dumps_items xs ++ "]"
  dumps (obj d) = "{" ++ dumps_fields d ++ "}"

  dumps_items : Items → String
  dumps_items nil = ""
  dumps_items (item v nil) = dumps v
  dumps_items (item v (item w xs)) = dumps v ++ ", " ++ dumps_items (item w xs)

  dumps_fields : Fields → String
  dumps_fields end = ""
  dumps_fields (field k v end) = dumped_str k ++ ": " ++ dumps v
  dumps_fields (field k v (field j w d)) =
      dumped_str k ++ ": " ++ dumps v ++ ", " ++ dumps_fields (field j w d)

dumps_runs :
    dumps (obj (field "a" (arr (item (str "é\n😀") (item null nil))) end))
    ≡ "{\"a\": [\"\\u00e9\\n\\ud83d\\ude00\", null]}"
unfolding dumps
dumps_runs = refl
