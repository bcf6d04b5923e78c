-- ===== src/Auth/Throttle.antt =====
-- The throttle of backend/app/api/auth.py: at most `max_hits` calls of a peer within a window.
pub mod Window
use clusteration.Base.{
  ℕ, ◌-◌, String, Bool, true, false, List, [], ◌∷◌, ◌++◌, length, keep, ltb, leb, if◌then◌else◌,
}
use clusteration.Auth.{Bucket, set_hits}

-- `now - t < window`; a time ahead of `now` counts, as in the source.
abbrev pub is_within : ℕ → ℕ → ℕ → Bool
is_within window now t = ltb (now - t) window

-- `[t for t in bucket[ip] if now - t < window]`
abbrev pub recent : ℕ → ℕ → List ℕ → List ℕ
recent window now hits = keep (is_within window now) hits

-- `_throttle`: whether the call is let in, and the bucket behind it.
unfoldable pub throttle : Bucket → String → ℕ → ℕ → ℕ → Bool × Bucket
throttle bucket ip now window max_hits =
    let hits = recent window now (bucket ip) in
    if leb max_hits (length hits)
    then (false, set_hits ip hits bucket)
    else (true, set_hits ip (hits ++ now ∷ []) bucket)
