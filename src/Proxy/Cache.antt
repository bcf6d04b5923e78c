-- ===== src/Proxy/Cache.antt =====
-- The cache gives the panel's own answers, at most five seconds old.
use clusteration.Base.{
  ℕ, ◌+◌, ◌≤◌, ◌<◌, ◌≡◌, refl, sym, ◌∙◌, inl, inr, String, Option, none, some, ltb, ◌=ₛ◌, arith,
  Bool-cases, eq_iff,
}
use clusteration.Base.Exec.{Result, ok, err}
use clusteration.Proxy.{
  Cached, Cache, no_entries, put_entry, cache_ttl, Lookup, remember, found, resolve,
}

-- The states of the cache, at times that do not fall.
pub data Served (ask : Lookup) : ℕ → Cache → Type 0 where
  empty : (now : ℕ) → Served ask now no_entries
  lookup :
      {now : ℕ} {cache : Cache} (later : ℕ) (host : String)
      → Served ask now cache
      → now ≤ later
      → Served ask later (resolve ask later host cache).1

module _ (ask : Lookup) where
  -- The panel has given this answer, from which the entry's time runs.
  IsAnswer : ℕ → String → Cached → Type 0
  IsAnswer now host entry =
      (asked_at : ℕ) × (asked_at ≤ now)
      × (entry.until ≡ asked_at + cache_ttl)
      × (ask asked_at host ≡ ok entry.dial)

  AreAnswers : ℕ → Cache → Type 0
  AreAnswers now cache =
      (host : String) (entry : Cached) → cache host ≡ some entry → IsAnswer now host entry

  IsAnswer-later :
      (now later : ℕ) (host : String) (entry : Cached)
      → now ≤ later
      → IsAnswer now host entry
      → IsAnswer later host entry
  unfolding IsAnswer
  IsAnswer-later now later host entry h (t, before, until, same) = (t, omega arith, until, same)

  AreAnswers-put :
      (now : ℕ) (host : String) (dial : Option String) (cache : Cache)
      → ask now host ≡ ok dial
      → AreAnswers now cache
      → AreAnswers now (put_entry host (record { until = now + cache_ttl; dial = dial }) cache)
  unfolding AreAnswers IsAnswer
  AreAnswers-put now host dial cache e h other entry p = elim (Bool-cases (other =ₛ host)) [
    | inl q ↦ (now, omega arith, ground arith, ground (arith, (eq_iff other host).0 q))
    | inr q ↦ h other entry (ground arith)
  ]

  remember-AreAnswers :
      (now : ℕ) (host : String) (reply : Result (Option String)) (cache : Cache)
      → ask now host ≡ reply
      → AreAnswers now cache
      → AreAnswers now (remember now host reply cache).1
  unfolding remember
  remember-AreAnswers now host (err x) cache e h = h
  remember-AreAnswers now host (ok dial) cache e h = AreAnswers-put now host dial cache e h

  found-AreAnswers :
      (now : ℕ) (host : String) (old : Option Cached) (cache : Cache)
      → AreAnswers now cache
      → AreAnswers now (found ask now host old cache).1
  unfolding found
  found-AreAnswers now host none cache v = remember-AreAnswers now host _ cache refl v
  found-AreAnswers now host (some entry) cache v = elim (Bool-cases (ltb now entry.until)) [
    | inl p ↦ rw p v
    | inr p ↦ rw p (remember-AreAnswers now host _ cache refl v)
  ]

  AreAnswers-later :
      (now later : ℕ) (cache : Cache) → now ≤ later → AreAnswers now cache → AreAnswers later cache
  unfolding AreAnswers
  AreAnswers-later now later cache h v host entry p =
      IsAnswer-later now later host entry h (v host entry p)

  Served-AreAnswers : {now : ℕ} {cache : Cache} → Served ask now cache → AreAnswers now cache
  unfolding AreAnswers resolve
  Served-AreAnswers (empty now) = λ host entry p. absurd (ground arith)
  Served-AreAnswers (lookup later host s h) =
      found-AreAnswers later host _ _ (AreAnswers-later _ later _ h (Served-AreAnswers s))

  remember-result :
      (now : ℕ) (host : String) (reply : Result (Option String)) (cache : Cache)
      → (remember now host reply cache).0 ≡ reply
  unfolding remember
  remember-result now host (err x) cache = refl
  remember-result now host (ok dial) cache = refl

  found-refines :
      (now : ℕ) (host : String) (cache : Cache) (old : Option Cached) (dial : Option String)
      → AreAnswers now cache
      → cache host ≡ old
      → (found ask now host old cache).0 ≡ ok dial
      → (asked_at : ℕ) × (asked_at ≤ now)
        × (now < asked_at + cache_ttl)
        × (ask asked_at host ≡ ok dial)
  unfolding found remember AreAnswers IsAnswer
  found-refines now host cache none dial v here e =
      (now, omega arith, omega arith, sym (remember-result now host (ask now host) cache) ∙ e)
  found-refines now host cache (some entry) dial v here e =
      elim (Bool-cases (ltb now entry.until)) [
        | inl p ↦
            let (t, before, until, same) = v host entry here in
            (t, before, ground (arith, until), ground (arith, same))
        | inr p ↦ (
          now,
          omega arith,
          omega arith,
          sym (remember-result now host (ask now host) cache) ∙ (ground arith),
        )
      ]

  -- Whatever lookups have come, each answer of `resolve` is one that the panel has given for that host
  -- within the last five seconds.
  pub resolve-refines :
      (now later : ℕ) (host : String) (cache : Cache) (dial : Option String)
      → Served ask now cache
      → now ≤ later
      → (resolve ask later host cache).0 ≡ ok dial
      → (asked_at : ℕ) × (asked_at ≤ later)
        × (later < asked_at + cache_ttl)
        × (ask asked_at host ≡ ok dial)
  unfolding resolve
  resolve-refines now later host cache dial s h e =
      found-refines later host cache (cache host) dial
        (AreAnswers-later now later cache h (Served-AreAnswers s)) refl e
