-- ===== src/Proxmox/Parse.antt =====
-- The pure functions of backend/app/services/proxmox.py that read replies.
pub mod Sizes
pub mod Addresses
use Prim.Native.Char.{Char, code}
use Prim.Native.String.{String, [], ◌∷◌}
use clusteration.Base.{
  ℕ, suc, ◌+◌, ◌-◌, ◌*◌, ◌/◌, ◌^◌, ◌%◌, ltb, zero, max, Bool, true, ◌||◌, ◌&&◌, not, Option, none,
  some, leb, ◌==◌, ◌=ₛ◌, if◌then◌else◌, ◌≡◌, refl, ◌≢◌, arith,
}
use clusteration.Base.Text.{lower, strip, startswith}
use clusteration.Base.Json.{
  Json, Items, Fields, nil, item, str, num, pos, arr, obj, field, end, get, get_default, truthy,
  py_str, str_or_empty, int, ℤ,
}
use clusteration.Base.Exec.{other, out_of_fuel, Result, ok, err}
use clusteration.Base.Text

-- One entry of `ip-addresses`: the address if it is an IPv4 address outside 127.0.0.0/8.
usable_ipv4 : Json → Option String
unfolding get get_default py_str strip startswith
usable_ipv4 (obj d) =
    let ip = strip (py_str (get_default "ip-address" (str "") d)) in
    elim (get "ip-address-type" d) [
      | str kind ↦
          if kind =ₛ "ipv4" && not (ip =ₛ "") && not (startswith ip "127.") then some ip else none
      | _ ↦ none
    ]
usable_ipv4 _ = none

abbrev or_else : Option String → Option String → Option String
or_else (some s) rest = some s
or_else none rest = rest

first_usable : Items → Option String
unfolding usable_ipv4
first_usable nil = none
first_usable (item a xs) = or_else (usable_ipv4 a) (first_usable xs)

-- `for addr in iface.get("ip-addresses", []) or []`: the keys of a dict and the characters of a text
-- are no dicts, and a number cannot be iterated.
addresses_of : Json → Result Items
unfolding truthy
addresses_of (arr xs) = ok xs
addresses_of (str _) = ok nil
addresses_of (obj _) = ok nil
addresses_of v = if truthy v then err (other "TypeError") else ok nil

-- A loopback interface, or what is no interface, has none; a missing name is empty.
interface_ipv4 : Json → Result (Option String)
unfolding get get_default py_str lower startswith addresses_of first_usable
interface_ipv4 (obj d) =
    let name = lower (py_str (get_default "name" (str "") d)) in
    if name =ₛ "lo" || name =ₛ "loopback" || startswith name "lo"
    then ok none
    else elim (addresses_of (get "ip-addresses" d)) [ ok xs ↦ ok (first_usable xs) | err e ↦ err e ]
interface_ipv4 _ = ok none

first_interface : Items → Result (Option String)
unfolding interface_ipv4
first_interface nil = ok none
first_interface (item i is) =
    let rest = first_interface is in
    elim (interface_ipv4 i) [ ok (some ip) ↦ ok (some ip) | ok none ↦ rest | err e ↦ err e ]

listed : Json → Result (Option String)
unfolding first_interface
listed (arr is) = first_interface is
listed _ = ok none

unfoldable pub parse_first_ipv4 : Json → Result (Option String)
unfolding listed get
parse_first_ipv4 (obj d) = listed (get "result" d)
parse_first_ipv4 v = listed v

addresses_of-ne : (v : Json) → addresses_of v ≢ err out_of_fuel
unfolding addresses_of
addresses_of-ne v h = ground arith

interface_ipv4-ne : (v : Json) → interface_ipv4 v ≢ err out_of_fuel
unfolding interface_ipv4
interface_ipv4-ne (obj d) h = ground (arith, addresses_of-ne (get "ip-addresses" d))
interface_ipv4-ne v h = cc h

first_interface-ne : (is : Items) → first_interface is ≢ err out_of_fuel
unfolding first_interface
first_interface-ne nil h = cc h
first_interface-ne (item i is) h = ground (arith, interface_ipv4-ne i, first_interface-ne is)

listed-ne : (v : Json) → listed v ≢ err out_of_fuel
unfolding listed
listed-ne (arr is) h = first_interface-ne is h
listed-ne v h = cc h

pub parse_first_ipv4-ne : (v : Json) → parse_first_ipv4 v ≢ err out_of_fuel
unfolding parse_first_ipv4
parse_first_ipv4-ne (obj d) h = listed-ne (get "result" d) h
parse_first_ipv4-ne v h = listed-ne v h

-- `str(d.get("template") or "").lower() in {"1", "true", "yes"}`, of a resource and of a config
unfoldable pub is_template : Fields → Bool
unfolding get str_or_empty lower
is_template d =
    let mark = lower (str_or_empty (get "template" d)) in
    mark =ₛ "1" || mark =ₛ "true" || mark =ₛ "yes"

abbrev pub gib : ℕ
gib = 1073741824

-- `math.ceil(n / d)`
-- 2 ** 53
abbrev pub two_53 : ℕ
two_53 = 9_007_199_254_740_992

abbrev pub ceil_div : ℕ → ℕ → ℕ
ceil_div n d = (n + (d - 1)) / d

-- The place of the last of the 53 bits that a float keeps of `n`, which has at most 1024 bits.
unfoldable pub last_place : ℕ → ℕ → ℕ
last_place zero n = 1
last_place (suc bits) n = let rest = last_place bits (n / 2) in if ltb n two_53 then 1 else 2 * rest

-- To the nearer multiple of `place`, of two to the even one.
to_nearest : ℕ → ℕ → ℕ
to_nearest place n =
    let below = n / place in
    let rest = n % place in
    if ltb (rest * 2) place || (rest * 2 == place && below % 2 == 0)
    then below * place
    else (below + 1) * place

-- `float(n)`
unfoldable pub double_of : ℕ → ℕ
unfolding to_nearest
double_of n = if leb n two_53 then n else to_nearest (last_place 1024 n) n

-- `bytes_size / (1024**3)` is a float: the size is rounded to one, and to divide it by a power of 2 is exact.
gb_of_bytes : Option ℤ → Option ℕ
unfolding double_of
gb_of_bytes (some (pos (suc n))) = some (max 1 (ceil_div (double_of (suc n)) gib))
gb_of_bytes _ = none

unfoldable pub disk_size_gb_from_resource : Option Fields → Option ℕ
unfolding gb_of_bytes get int
disk_size_gb_from_resource none = none
disk_size_gb_from_resource (some resource) = gb_of_bytes (int (get "maxdisk" resource))

is_digit : Char → Bool
is_digit c = leb b'0' (code c) && leb (code c) b'9'

-- A run of digits after those read so far: the number, how many there were, and the rest.
number_from : ℕ → ℕ → String → ℕ × ℕ × String
unfolding is_digit
number_from n k [] = (n, k, [])
number_from n k (c ∷ s) =
    let more = number_from (n * 10 + (code c - 48)) (suc k) s in
    if is_digit c then more else (n, k, c ∷ s)

-- `(?:i?B)?(?:,|$)`, in lower case
ends_size : String → Bool
unfolding startswith
ends_size s =
    s =ₛ "" || startswith s "," || s =ₛ "b" || startswith s "b," || s =ₛ "ib" || startswith s "ib,"

-- The size of `n / 10 ** k` units, rounded up to GiB, at least 1.
abbrev scaled : ℕ → ℕ → Char → String → Option ℕ
scaled n k unit rest =
    let u = code unit in
    let valid = ends_size rest in
    if not valid
    then none
    else if u == b'k'
    then some (max 1 (ceil_div n (10 ^ k * 1048576)))
    else if u == b'm'
    then some (max 1 (ceil_div n (10 ^ k * 1024)))
    else if u == b'g'
    then some (max 1 (ceil_div n (10 ^ k)))
    else if u == b't'
    then some (max 1 (ceil_div (n * 1024) (10 ^ k)))
    else none

with_unit : ℕ → ℕ → String → Option ℕ
unfolding ends_size
with_unit n k [] = none
with_unit n k (u ∷ s) = scaled n k u s

-- `(\d+(?:\.\d+)?)([KMGT])...`, in lower case: a point has a digit on each side
size_at : String → Option ℕ
unfolding number_from with_unit
size_at s =
    let (n, k, rest) = number_from 0 0 s in
    if k == 0 then none else elim rest [
      | [] ↦ none
      | c ∷ rest' ↦
          let (m, j, rest'') = number_from n 0 rest' in
          if code c == b'.'
          then (if j == 0 then none else with_unit m j rest'')
          else with_unit n 0 (c ∷ rest')
    ]

-- `re.search`: the first place, at the start or behind a comma, where `size=...` matches
search_size : Bool → String → Option ℕ
unfolding size_at startswith Text.drop_chars
search_size at_start [] = none
search_size at_start (c ∷ s) =
    let later = search_size (code c == b',') s in
    let here =
      if at_start && startswith (c ∷ s) "size="
      then size_at (Text.drop_chars 5 (c ∷ s))
      else none in
    elim here [ some g ↦ some g | none ↦ later ]

unfoldable pub parse_disk_size_gb : String → Option ℕ
unfolding search_size lower
parse_disk_size_gb value = search_size true (lower value)

sizes_run :
    (parse_disk_size_gb "local-lvm:vm-9001-disk-0,size=12G" ≡ some 12)
    × (parse_disk_size_gb "x,size=2252M,ssd=1" ≡ some 3)
    × (parse_disk_size_gb "size=1.5TiB" ≡ some 1536)
    × (parse_disk_size_gb "size=12X" ≡ none)
    × (parse_disk_size_gb "maxsize=12G" ≡ none)
unfolding parse_disk_size_gb
sizes_run = (refl, refl, refl, refl, refl)

rounds_up :
    disk_size_gb_from_resource (some (field "maxdisk" (num (pos (12 * gib + 1))) end)) ≡ some 13
unfolding disk_size_gb_from_resource
rounds_up = refl
