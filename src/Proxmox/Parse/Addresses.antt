-- ===== src/Proxmox/Parse/Addresses.antt =====
-- The address that is read from the guest agent's reply.
use Prim.Native.String.{String}
use clusteration.Base.{◌≡◌, refl, false, some, ◌=ₛ◌, arith, ◌⊎◌, inl, inr}
use clusteration.Base.Text.{startswith}
use clusteration.Base.Json.{Json, Items, arr, obj, nil, item, get}
use clusteration.Base.Exec.{Exc, Result, ok, err}
use clusteration.Proxmox.Parse.{
  usable_ipv4, first_usable, addresses_of, interface_ipv4, first_interface, listed,
  parse_first_ipv4,
}

-- An address that is not empty and not one of the loopback network.
abbrev IsUsable : String → Type 0
IsUsable ip = ((ip =ₛ "") ≡ false) × (startswith ip "127." ≡ false)

usable_ipv4-IsUsable : (v : Json) (ip : String) → usable_ipv4 v ≡ some ip → IsUsable ip
unfolding usable_ipv4
usable_ipv4-IsUsable (obj d) ip h = ground arith
usable_ipv4-IsUsable v ip h = cc h

first_usable-IsUsable : (xs : Items) (ip : String) → first_usable xs ≡ some ip → IsUsable ip
unfolding first_usable
first_usable-IsUsable nil ip h = cc h
first_usable-IsUsable (item v xs) ip h =
    ground (arith, usable_ipv4-IsUsable v ip, first_usable-IsUsable xs ip)

addresses-cases : (r : Result Items) → ((xs : Items) × (r ≡ ok xs)) ⊎ ((e : Exc) × (r ≡ err e))
addresses-cases (ok xs) = inl (xs, refl)
addresses-cases (err e) = inr (e, refl)

interface-IsUsable : (v : Json) (ip : String) → interface_ipv4 v ≡ ok (some ip) → IsUsable ip
unfolding interface_ipv4
interface-IsUsable (obj d) ip h = elim (addresses-cases (addresses_of (get "ip-addresses" d))) [
  | inl (xs, p) ↦ ground (arith, first_usable-IsUsable xs ip)
  | inr (e, p) ↦ ground arith
]
interface-IsUsable v ip h = cc h

first_interface-IsUsable :
    (is : Items) (ip : String) → first_interface is ≡ ok (some ip) → IsUsable ip
unfolding first_interface
first_interface-IsUsable nil ip h = cc h
first_interface-IsUsable (item v is) ip h =
    ground (arith, interface-IsUsable v ip, first_interface-IsUsable is ip)

listed-IsUsable : (v : Json) (ip : String) → listed v ≡ ok (some ip) → IsUsable ip
unfolding listed
listed-IsUsable (arr is) ip h = first_interface-IsUsable is ip h
listed-IsUsable v ip h = cc h

-- An address that is read from a reply is not empty and does not begin with 127.
parse_first_ipv4-IsUsable :
    (v : Json) (ip : String) → parse_first_ipv4 v ≡ ok (some ip) → IsUsable ip
unfolding parse_first_ipv4
parse_first_ipv4-IsUsable (obj d) ip h = listed-IsUsable (get "result" d) ip h
parse_first_ipv4-IsUsable v ip h = listed-IsUsable v ip h
