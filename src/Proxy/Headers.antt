-- ===== src/Proxy/Headers.antt =====
-- The headers that the proxy hands on.
use clusteration.Base.{
  ◌≡◌, refl, sym, subst, ◌∙◌, inl, inr, String, Bool, true, false, List, [], ◌∷◌, All, ◌=ₛ◌, arith,
  Bool-cases, true≢false, text_differ, eq_iff,
}
use clusteration.Base.Text.{lower}
use clusteration.Proxy.{
  is_hop_by_hop, Header, set_header, dict_from, goes_upstream, HttpRequest, peer_or_none,
  upstream_headers,
}

module _ (P : Header → Type 0) where
  set_header-All :
      (name value : String) (hs : List Header)
      → P (record { name = name; value = value })
      → All P hs
      → All P (set_header name value hs)
  unfolding set_header
  set_header-All name value [] p h = (p, tt)
  set_header-All name value (x ∷ xs) p (h, hs) = elim (Bool-cases (x.name =ₛ name)) [
    | inl q ↦ rw q (p, hs)
    | inr q ↦ rw q (h, set_header-All name value xs p hs)
  ]

  dict_from-All :
      (keeps : String → Bool)
      → ((name value : String) → keeps name ≡ true → P (record { name = name; value = value }))
      → (hs acc : List Header) → All P acc
      → All P (dict_from keeps acc hs)
  unfolding dict_from
  dict_from-All keeps k [] acc h = h
  dict_from-All keeps k (x ∷ xs) acc h = elim (Bool-cases (keeps x.name)) [
    | inl q ↦ rw q (
        dict_from-All keeps k xs (set_header x.name x.value acc)
          (set_header-All x.name x.value acc (k x.name x.value q) h))
    | inr q ↦ rw q (dict_from-All keeps k xs acc h)
  ]

abbrev pub HaveOwnNames : List Header → Type 0
HaveOwnNames [] = Unit
HaveOwnNames (h ∷ hs) = All (λ (x : Header). (h.name =ₛ x.name) ≡ false) hs × HaveOwnNames hs

renamed :
    (name new : String) (hs : List Header)
    → name ≡ new
    → All (λ (y : Header). (name =ₛ y.name) ≡ false) hs
    → All (λ (y : Header). (new =ₛ y.name) ≡ false) hs
renamed name new hs e = subst (λ n. All (λ (y : Header). (n =ₛ y.name) ≡ false) hs) e

set_header-HaveOwnNames :
    (name value : String) (hs : List Header)
    → HaveOwnNames hs
    → HaveOwnNames (set_header name value hs)
unfolding set_header
set_header-HaveOwnNames name value [] h = (tt, tt)
set_header-HaveOwnNames name value (x ∷ xs) (h, hs) = elim (Bool-cases (x.name =ₛ name)) [
  | inl q ↦ rw q (renamed x.name name xs ((eq_iff x.name name).0 q) h, hs)
  | inr q ↦ rw q (
    set_header-All (λ (y : Header). (x.name =ₛ y.name) ≡ false) name value xs q h,
    set_header-HaveOwnNames name value xs hs,
  )
]

dict_from-HaveOwnNames :
    (keeps : String → Bool) (hs acc : List Header)
    → HaveOwnNames acc
    → HaveOwnNames (dict_from keeps acc hs)
unfolding dict_from
dict_from-HaveOwnNames keeps [] acc h = h
dict_from-HaveOwnNames keeps (x ∷ xs) acc h = elim (Bool-cases (keeps x.name)) [
  | inl q ↦ rw q (
      dict_from-HaveOwnNames keeps xs (set_header x.name x.value acc)
        (set_header-HaveOwnNames x.name x.value acc h))
  | inr q ↦ rw q (dict_from-HaveOwnNames keeps xs acc h)
]

-- The headers of this name have this value.
abbrev pub AreOnly : String → String → List Header → Type 0
AreOnly name value = All (λ (h : Header). (h.name =ₛ name) ≡ true → h.value ≡ value)

AreOnly-none :
    (name value : String) (hs : List Header)
    → All (λ (y : Header). (name =ₛ y.name) ≡ false) hs
    → AreOnly name value hs
AreOnly-none name value [] h = tt
AreOnly-none name value (x ∷ xs) (h, hs) =
    (λ e. absurd (true≢false (sym e ∙ text_differ name x.name h)), AreOnly-none name value xs hs)

set_header-AreOnly :
    (name value : String) (hs : List Header)
    → HaveOwnNames hs
    → AreOnly name value (set_header name value hs)
unfolding set_header
set_header-AreOnly name value [] h = (λ e. refl, tt)
set_header-AreOnly name value (x ∷ xs) (h, hs) = elim (Bool-cases (x.name =ₛ name)) [
  | inl q ↦
      rw q (
        λ e. refl,
        AreOnly-none name value xs (renamed x.name name xs ((eq_iff x.name name).0 q) h),
      )
  | inr q ↦ rw q (λ e. absurd (true≢false (sym e ∙ q)), set_header-AreOnly name value xs hs)
]

abbrev Goes : Header → Type 0
Goes h = (is_hop_by_hop (lower h.name) ≡ false) × ((lower h.name =ₛ "host") ≡ false)

-- Each name stands once in what goes to the VM; no name there is hop-by-hop, nor the browser's
-- `Host`, in whatever case; and `x-forwarded-for` is the peer's address, whatever the browser has sent.
pub upstream_headers-are_safe :
    (req : HttpRequest)
    → HaveOwnNames (upstream_headers req)
      × All
          (λ (h : Header).
            (is_hop_by_hop (lower h.name) ≡ false) × ((lower h.name =ₛ "host") ≡ false))
          (upstream_headers req)
      × AreOnly "x-forwarded-for" (peer_or_none req.peer) (upstream_headers req)
unfolding upstream_headers lower
upstream_headers-are_safe req =
    let first = dict_from-HaveOwnNames goes_upstream req.headers [] tt in
    let second = set_header-HaveOwnNames "x-forwarded-proto" "https" _ first in
    let third = set_header-HaveOwnNames "x-forwarded-host" req.host _ second in
    (
      set_header-HaveOwnNames "x-forwarded-for" (peer_or_none req.peer) _ third,
      set_header-All Goes "x-forwarded-for" (peer_or_none req.peer) _ (refl, refl)
          (set_header-All Goes "x-forwarded-host" req.host _ (refl, refl)
            (set_header-All Goes "x-forwarded-proto" "https" _ (refl, refl)
              (dict_from-All Goes goes_upstream (λ name value e. ground arith) req.headers [] tt))),
      set_header-AreOnly "x-forwarded-for" (peer_or_none req.peer) _ third,
    )
