-- ===== src/Auth/Throttle/Window.antt =====
-- The throttle lets at most `max_hits` calls of a peer in within any window.
use clusteration.Base.{
  ℕ, ◌≤◌, ◌<◌, ◌≡◌, refl, sym, inl, inr, String, Bool, true, false, ◌&&◌, List, [], ◌∷◌, ◌++◌,
  length, length-append, length-keep, ap, subst, leb, ◌=ₛ◌, if◌then◌else◌, arith, Bool-cases,
  eq_iff, keep-append, text_refl, text_differ,
}
use clusteration.Auth.{Bucket, no_hits, set_hits}
use clusteration.Auth.Throttle.{is_within, recent, throttle}

is_within_mono :
    (window now later t : ℕ)
    → now ≤ later
    → is_within window later t ≡ true
    → is_within window now t ≡ true
is_within_mono window now later t h p = ground arith

-- What has left the window does not come back.
recent-recent :
    (window now later : ℕ) (hits : List ℕ)
    → now ≤ later
    → recent window later (recent window now hits) ≡ recent window later hits
recent-recent window now later [] h = refl
recent-recent window now later (t ∷ ts) h =
    ground (arith, recent-recent window now later ts h, is_within_mono window now later t h)

length-recent :
    (window now later : ℕ) (hits : List ℕ)
    → now ≤ later
    → length (recent window later hits) ≤ length (recent window now hits)
length-recent window now later [] h = omega arith
length-recent window now later (t ∷ ts) h =
    ground (arith, length-recent window now later ts h, is_within_mono window now later t h)

-- The times at which calls of `ip` were let in, with the call of `other` that was answered last.
abbrev pub noted : String → String → Bool → ℕ → List ℕ → List ℕ
noted ip other allowed now let_in = if (other =ₛ ip) && allowed then let_in ++ now ∷ [] else let_in

-- The calls of all the peers, at times that do not fall; the times of those of `ip` that were let in.
pub data History (ip : String) (window max_hits : ℕ) : ℕ → Bucket → List ℕ → Type 0 where
  at_first : (now : ℕ) → History ip window max_hits now no_hits []
  call :
      {now : ℕ} {bucket : Bucket} {let_in : List ℕ} (other : String) (later : ℕ)
      → History ip window max_hits now bucket let_in
      → now ≤ later
      → History ip window max_hits later
          (throttle bucket other later window max_hits).1
          (noted ip other (throttle bucket other later window max_hits).0 later let_in)

module _ (ip : String) (window max_hits : ℕ) where
  pub record Inv (now : ℕ) (bucket : Bucket) (let_in : List ℕ) : Type 0 where
    pub tracks :
        (later : ℕ) → now ≤ later → recent window later (bucket ip) ≡ recent window later let_in
    pub bounded : (later : ℕ) → now ≤ later → length (recent window later let_in) ≤ max_hits

  -- A call of `ip` itself is let in, with its hit, ...
  let_in-Inv :
      (now later : ℕ) (bucket : Bucket) (let_in : List ℕ)
      → now ≤ later
      → Inv now bucket let_in
      → length (recent window later (bucket ip)) < max_hits
      → Inv later
          (set_hits ip (recent window later (bucket ip) ++ later ∷ []) bucket)
          (let_in ++ later ∷ [])
  let_in-Inv now later bucket let_in h v few = record {
    tracks = λ t g.
        rw
          (
            text_refl ip,
            keep-append (is_within window t) (recent window later (bucket ip)) (later ∷ []),
            keep-append (is_within window t) let_in (later ∷ []),
            recent-recent window later t (bucket ip) g,
            v.tracks t (omega arith),
          )
          refl;
    bounded = λ t g.
        rw
          (
            keep-append (is_within window t) let_in (later ∷ []),
            length-append (recent window t let_in) (recent window t (later ∷ [])),
          )
          (omega (
            arith,
            length-keep (is_within window t) (later ∷ []),
            length-recent window later t let_in g,
            ap length (v.tracks later h),
          ));
  }

  -- ... or is not, and leaves the hits of the window.
  refused-Inv :
      (now later : ℕ) (bucket : Bucket) (let_in : List ℕ)
      → now ≤ later
      → Inv now bucket let_in
      → Inv later (set_hits ip (recent window later (bucket ip)) bucket) let_in
  refused-Inv now later bucket let_in h v = record {
    tracks = λ t g.
        rw (text_refl ip, recent-recent window later t (bucket ip) g) (v.tracks t (omega arith));
    bounded = λ t g. v.bounded t (omega arith);
  }

  elsewhere-Inv :
      (now later : ℕ) (bucket : Bucket) (hits let_in : List ℕ) (other : String)
      → (ip =ₛ other) ≡ false
      → now ≤ later
      → Inv now bucket let_in
      → Inv later (set_hits other hits bucket) let_in
  elsewhere-Inv now later bucket hits let_in other e h v = record {
    tracks = λ t g. rw e (v.tracks t (omega arith));
    bounded = λ t g. v.bounded t (omega arith);
  }

  own-Inv :
      (now later : ℕ) (bucket : Bucket) (let_in : List ℕ)
      → now ≤ later
      → Inv now bucket let_in
      → Inv later
          (throttle bucket ip later window max_hits).1
          (noted ip ip (throttle bucket ip later window max_hits).0 later let_in)
  unfolding throttle
  own-Inv now later bucket let_in h v =
      elim (Bool-cases (leb max_hits (length (recent window later (bucket ip))))) [
        | inl full ↦ rw (full, text_refl ip) (refused-Inv now later bucket let_in h v)
        | inr room ↦ rw (room, text_refl ip) (let_in-Inv now later bucket let_in h v (ground arith))
      ]

  other-Inv :
      (now later : ℕ) (bucket : Bucket) (let_in : List ℕ) (other : String)
      → (ip =ₛ other) ≡ false
      → (other =ₛ ip) ≡ false
      → now ≤ later
      → Inv now bucket let_in
      → Inv later
          (throttle bucket other later window max_hits).1
          (noted ip other (throttle bucket other later window max_hits).0 later let_in)
  unfolding throttle
  other-Inv now later bucket let_in other e e' h v =
      elim (Bool-cases (leb max_hits (length (recent window later (bucket other))))) [
        | inl full ↦ rw (full, e') (elsewhere-Inv now later bucket _ let_in other e h v)
        | inr room ↦ rw (room, e') (elsewhere-Inv now later bucket _ let_in other e h v)
      ]

  pub throttle-Inv :
      (now later : ℕ) (bucket : Bucket) (let_in : List ℕ) (other : String)
      → now ≤ later
      → Inv now bucket let_in
      → Inv later
          (throttle bucket other later window max_hits).1
          (noted ip other (throttle bucket other later window max_hits).0 later let_in)
  throttle-Inv now later bucket let_in other h v = elim (Bool-cases (other =ₛ ip)) [
    | inl p ↦
        subst
          (λ x.
            Inv later (throttle bucket x later window max_hits).1
              (noted ip x (throttle bucket x later window max_hits).0 later let_in))
          (sym ((eq_iff other ip).0 p)) (own-Inv now later bucket let_in h v)
    | inr p ↦ other-Inv now later bucket let_in other (text_differ other ip p) p h v
  ]

  pub fresh-Inv : (now : ℕ) → Inv now no_hits []
  fresh-Inv now = record { tracks = λ later h. refl; bounded = λ later h. omega arith }

  -- Without its hits a peer begins anew.
  own_cleared-Inv : (later : ℕ) (bucket : Bucket) → Inv later (set_hits ip [] bucket) []
  own_cleared-Inv later bucket = record {
    tracks = λ t g. rw (text_refl ip) refl;
    bounded = λ t g. omega arith;
  }

  pub cleared-Inv :
      (now later : ℕ) (bucket : Bucket) (let_in : List ℕ) (other : String)
      → now ≤ later
      → Inv now bucket let_in
      → Inv later (set_hits other [] bucket) (if other =ₛ ip then [] else let_in)
  cleared-Inv now later bucket let_in other h v = elim (Bool-cases (other =ₛ ip)) [
    | inl p ↦
        subst (λ x. Inv later (set_hits x [] bucket) (if x =ₛ ip then [] else let_in))
          (sym ((eq_iff other ip).0 p)) (rw (text_refl ip) (own_cleared-Inv later bucket))
    | inr p ↦ rw p (elsewhere-Inv now later bucket [] let_in other (text_differ other ip p) h v)
  ]

  History-Inv :
      {now : ℕ} {bucket : Bucket} {let_in : List ℕ}
      → History ip window max_hits now bucket let_in
      → Inv now bucket let_in
  History-Inv (at_first now) = fresh-Inv now
  History-Inv (call other later r h) = throttle-Inv _ later _ _ other h (History-Inv r)

-- Whatever calls have come, from whatever peers, at most `max_hits` of a peer were let in within a
-- window that ends at the last call or later.
pub throttle-bounds :
    (ip : String) (window max_hits now later : ℕ) (bucket : Bucket) (let_in : List ℕ)
    → History ip window max_hits now bucket let_in
    → now ≤ later
    → length (recent window later let_in) ≤ max_hits
throttle-bounds ip window max_hits now later bucket let_in r h =
    (History-Inv ip window max_hits r).bounded later h
