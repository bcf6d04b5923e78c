-- ===== src/Base/Json.antt =====
-- JSON values as Python reads them, `dict.get`, the merge of two dicts, truth, `str` and `int`.
pub mod Dumps
use Prim.Native.Char.{Char, code}
use Prim.Native.Nat.{ℕ, zero, suc, ◌+◌, ◌-◌, ◌*◌}
use Prim.Native.String.{String, [], ◌∷◌, ◌++◌}
use mathlib.Core.Path.{◌≡◌, refl}
use mathlib.Core.Bool.{Bool, true, false, ◌&&◌, ◌||◌, not}
use mathlib.Core.Option.{Option, none, some}
use native.Mathlib.Omega.{arith}
use text.Mathlib.TextEquality.{eq_iff}
use clusteration.Base.Tests.{◌=ₛ◌, if◌then◌else◌, ◌==◌, leb}
use clusteration.Base.Text.{contains, show, strip}

-- `negsuc n` is -(n + 1)
pub data ℤ : Type 0 where
  pos : ℕ → ℤ
  negsuc : ℕ → ℤ

-- `real t r` is a number with a fraction, with its whole part `t` and its text `r`.
mutual
  pub data Json : Type 0 where
    null : Json
    bool : Bool → Json
    num : ℤ → Json
    real : ℤ → String → Json
    str : String → Json
    arr : Items → Json
    obj : Fields → Json

  pub data Items : Type 0 where
    nil : Items
    item : Json → Items → Items

  pub data Fields : Type 0 where
    end : Fields
    field : String → Json → Fields → Fields

-- `d.get(key)`: `None` where the key is missing
unfoldable pub get : String → Fields → Json
get k end = null
get k (field j v d) = if j =ₛ k then v else get k d

-- `d.get(key, default)`
unfoldable pub get_default : String → Json → Fields → Json
get_default k default end = default
get_default k default (field j v d) = if j =ₛ k then v else get_default k default d

-- `d[key] = value`
unfoldable pub insert : String → Json → Fields → Fields
insert k v end = field k v end
insert k v (field j w d) = if j =ₛ k then field k v d else field j w (insert k v d)

-- `{**d, **patch}`
unfoldable pub merge : Fields → Fields → Fields
unfolding insert
merge d end = d
merge d (field k v patch) = merge (insert k v d) patch

-- `value.get(key) if isinstance(value, dict) else None`
unfoldable pub get_in : String → Json → Json
unfolding get
get_in k (obj d) = get k d
get_in k _ = null

-- Whether Python takes the value for true.
unfoldable pub truthy : Json → Bool
truthy null = false
truthy (bool b) = b
truthy (num (pos zero)) = false
truthy (str []) = false
truthy (arr nil) = false
truthy (obj end) = false
truthy _ = true

escaped : Char → Char → String → String
escaped quote ch rest =
    let c = code ch in
    if c == code quote || c == 92
    then "\\" ++ (ch ∷ rest)
    else if c == 10
    then "\\n" ++ rest
    else if c == 13
    then "\\r" ++ rest
    else if c == 9
    then "\\t" ++ rest
    else ch ∷ rest

repr_in : Char → String → String
unfolding escaped
repr_in quote [] = quote ∷ []
repr_in quote (ch ∷ s) = escaped quote ch (repr_in quote s)

repr_str : String → String
unfolding repr_in contains
repr_str s =
    if contains s "'" && not (contains s "\"") then "\"" ++ repr_in "\"" s else "'" ++ repr_in "'" s

-- `repr(value)`, for printable texts
mutual
  unfolding show repr_str

  pub repr : Json → String
  repr null = "None"
  repr (bool true) = "True"
  repr (bool false) = "False"
  repr (num (pos n)) = show n
  repr (num (negsuc n)) = "-" ++ show (suc n)
  repr (real _ text) = text
  repr (str s) = repr_str s
  repr (arr xs) = "[" ++ repr_items xs ++ "]"
  repr (obj d) = "{" ++ repr_fields d ++ "}"

  pub repr_items : Items → String
  repr_items nil = ""
  repr_items (item v nil) = repr v
  repr_items (item v (item w xs)) = repr v ++ ", " ++ repr_items (item w xs)

  pub repr_fields : Fields → String
  repr_fields end = ""
  repr_fields (field k v end) = repr_str k ++ ": " ++ repr v
  repr_fields (field k v (field j w d)) =
      repr_str k ++ ": " ++ repr v ++ ", " ++ repr_fields (field j w d)

-- `str(value)`
unfoldable pub py_str : Json → String
unfolding repr
py_str (str s) = s
py_str v = repr v

-- `str(value or "")`
unfoldable pub str_or_empty : Json → String
unfolding truthy py_str
str_or_empty v = if truthy v then py_str v else ""

-- The digits of `int(text)`; one `_` may stand between two of them.
digits_from : ℕ → Bool → String → Option ℕ
digits_from n after_digit [] = if after_digit then some n else none
digits_from n after_digit (ch ∷ s) =
    let c = code ch in
    let more = digits_from (n * 10 + (c - 48)) true s in
    let skip = digits_from n false s in
    if leb 48 c && leb c 57 then more else if c == b'_' && after_digit then skip else none

negate : ℕ → ℤ
negate zero = pos zero
negate (suc n) = negsuc n

abbrev read_as : (ℕ → ℤ) → Option ℕ → Option ℤ
read_as f none = none
read_as f (some n) = some (f n)

signed : String → Option ℤ
unfolding digits_from negate
signed [] = none
signed (ch ∷ s) =
    if code ch == b'-'
    then read_as negate (digits_from 0 false s)
    else read_as pos (digits_from 0 false (if code ch == b'+' then s else ch ∷ s))

-- `int(value)`: `none` for a `TypeError` or a `ValueError`
unfoldable pub int : Json → Option ℤ
unfolding signed strip
int (bool true) = some (pos 1)
int (bool false) = some (pos 0)
int (num z) = some z
int (real z _) = some z
int (str s) = signed (strip s)
int _ = none

pub get-insert :
    (k j : String) (v : Json) (d : Fields) → get j (insert k v d) ≡ (if k =ₛ j then v else get j d)
unfolding get insert
get-insert k j v end = refl
get-insert k j v (field i w d) =
    ground (arith, eq_iff k j, eq_iff i k, eq_iff i j, get-insert k j v d)

int_runs : int (str " 1_024 ") ≡ some (pos 1024)
unfolding int
int_runs = refl

merge_runs :
    get "node" (merge (field "node" null (field "upid" null end)) (field "node" (str "pve2") end))
    ≡ str "pve2"
unfolding get merge
merge_runs = refl

repr_runs :
    repr
      (obj (field "vmid" (str "can't") (field "n" (arr (item (num (pos 3)) (item null nil))) end)))
    ≡ "{'vmid': \"can't\", 'n': [3, None]}"
unfolding repr
repr_runs = refl
