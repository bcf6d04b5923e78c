-- ===== src/Proxmox/Retry.antt =====
-- How often `ProxmoxClient._request` sends, and when it succeeds.
pub mod Refusal
use clusteration.Base.{
  ℕ, zero, min, ◌∙◌, suc, ◌+◌, ◌≤◌, ◌≡◌, refl, ◌≢◌, ◌↔◌, ◌⊎◌, inl, inr, true, false, Option, none,
  some, List, ◌∷◌, arith, Bool-cases, ◌==◌, ◌||◌, String, ◌<>◌,
}
use clusteration.Base.Json.{Json}
use clusteration.Base.Exec.{Exc, proxmox, auth, out_of_fuel, ok, err}
use clusteration.Base.Exec.Ends.{IsFine}
use clusteration.Proxmox.{Call, Transport, Response, response, Outcome, IsMonotonic}
use clusteration.Proxmox.Request.{
  HttpError, status, Attempt, answered, crashed, caught, classify, is_final, give_up, backoff,
  is_retry_status, sanitize_proxmox_error, request_from, request,
}
use clusteration.Proxmox.Paths.{method_of, path_of}
use clusteration.Proxmox.Trace.{Traced, traced}

-- The calls in front of `cs`, `k` times `c`.
abbrev pub repeat : ℕ → Call → List Call → List Call
repeat zero c cs = cs
repeat (suc k) c cs = c ∷ repeat k c cs

repeat-cons : (k : ℕ) (c : Call) (cs : List Call) → repeat k c (c ∷ cs) ≡ c ∷ repeat k c cs
repeat-cons zero c cs = refl
repeat-cons (suc k) c cs = cc (repeat-cons k c cs)

abbrev IsOneOf : Attempt → Type 0
IsOneOf a =
    ((v : Json) × (a ≡ answered v))
    ⊎ (((e : Exc) × (a ≡ crashed e)) ⊎ ((e : HttpError) × (a ≡ caught e)))

pub Attempt-cases : (a : Attempt) → IsOneOf a
Attempt-cases (answered v) = inl (v, refl)
Attempt-cases (crashed e) = inr (inl (e, refl))
Attempt-cases (caught e) = inr (inr (e, refl))

-- From `before`, the call `c` was sent at most `left` times, at least once if it could be, and no other.
abbrev pub Sent : ℕ → Call → List Call → List Call → Type 0
Sent left c before after = (k : ℕ) × (min left 1 ≤ k) × (k ≤ left) × (after ≡ repeat k c before)

-- One round of the loop, by what the attempt comes to.
module _ {N : Type 0} (t : Transport N) (left attempt : ℕ) (last : Option HttpError) (c : Call)
    (n : N) where
  round_answered :
      (v : Json)
      → classify (t.send c n).0 ≡ answered v
      → request_from t (suc left) attempt last c n ≡ (ok v, (t.send c n).1)
  unfolding request_from
  round_answered v p = rw (p, request_from)

  round_crashed :
      (e : Exc)
      → classify (t.send c n).0 ≡ crashed e
      → request_from t (suc left) attempt last c n ≡ (err e, (t.send c n).1)
  unfolding request_from
  round_crashed e p = rw (p, request_from)

  round_ended :
      (e : HttpError)
      → classify (t.send c n).0 ≡ caught e
      → (attempt == 3 || is_final e) ≡ true
      → request_from t (suc left) attempt last c n ≡ (err (give_up c (some e)), (t.send c n).1)
  unfolding request_from
  round_ended e p q = rw (p, q, request_from)

  round_again :
      (e : HttpError)
      → classify (t.send c n).0 ≡ caught e
      → (attempt == 3 || is_final e) ≡ false
      → request_from t (suc left) attempt last c n
        ≡ request_from t left (attempt + 1) (some e) c (t.sleep (backoff attempt) (t.send c n).1)
  unfolding request_from
  round_again e p q = rw (p, q, request_from)

no_rounds :
    {N : Type 0} (t : Transport N) (attempt : ℕ) (last : Option HttpError) (c : Call) (n : N)
    → request_from t zero attempt last c n ≡ (err (give_up c last), n)
unfolding request_from
no_rounds t attempt last c n = refl

module _ {N : Type 0} (t : Transport N) where
  request_from-Sent :
      (left attempt : ℕ) (last : Option HttpError) (c : Call) (s : Traced N)
      → Sent left c s.calls (request_from (traced t) left attempt last c s).1.calls
  unfolding request_from
  request_from-Sent zero attempt last c s = (0, omega arith, omega arith, refl)
  request_from-Sent (suc left) attempt last c s =
      elim (Attempt-cases (classify ((traced t).send c s).0)) [
        | inl (v, p) ↦
            (1, omega arith, omega arith, rw (round_answered (traced t) left attempt last c s v p))
        | inr (inl (e, p)) ↦
            (1, omega arith, omega arith, rw (round_crashed (traced t) left attempt last c s e p))
        | inr (inr (e, p)) ↦ elim (Bool-cases (attempt == 3 || is_final e)) [
          | inl q ↦
              (1, omega arith, omega arith, rw (round_ended (traced t) left attempt last c s e p q))
          | inr q ↦
              let s' : Traced N = (traced t).sleep (backoff attempt) ((traced t).send c s).1 in
              let (k, ge, le, eq) = request_from-Sent left (attempt + 1) (some e) c s' in
              (
                suc k,
                omega arith,
                omega arith,
                rw (round_again (traced t) left attempt last c s e p q)
                    (eq ∙ repeat-cons k c s.calls),
              )
        ]
      ]

  -- A call of the client sends its request one to four times, and no other request.
  pub request-sends : (c : Call) (s : Traced N) → Sent 4 c s.calls (request (traced t) c s).1.calls
  unfolding request
  request-sends c s = request_from-Sent 4 0 none c s

  -- Attempt by attempt: an answer, or an error that is tried again, a pause and success in the rest.
  abbrev pub Succeeds : Call → Json → ℕ → ℕ → N → Type 0
  Succeeds c v zero attempt n = ⊥
  Succeeds c v (suc left) attempt n =
      (classify (t.send c n).0 ≡ answered v)
      ⊎ ((e : HttpError) × (classify (t.send c n).0 ≡ caught e)
          × (is_final e ≡ false)
          × Succeeds c v left (attempt + 1) (t.sleep (backoff attempt) (t.send c n).1))

  answer-Succeeds :
      (c : Call) (v : Json) (left attempt : ℕ) (last : Option HttpError) (n : N)
      → left + attempt ≡ 4
      → Succeeds c v left attempt n
      → (request_from t left attempt last c n).0 ≡ ok v
  answer-Succeeds c v zero attempt last n four h = elim h [ ]
  answer-Succeeds c v (suc left) attempt last n four (inl p) =
      rw (round_answered t left attempt last c n v p)
  answer-Succeeds c v (suc zero) attempt last n four (inr (e, p, q, h)) = elim h [ ]
  answer-Succeeds c v (suc (suc left)) attempt last n four (inr (e, p, q, h)) =
      let again : (attempt == 3 || is_final e) ≡ false = ground arith in
      rw (round_again t (suc left) attempt last c n e p again) (
        answer-Succeeds c v (suc left) (attempt + 1) (some e)
          (t.sleep (backoff attempt) (t.send c n).1) (omega arith) h)

  Succeeds-answer :
      (c : Call) (v : Json) (left attempt : ℕ) (last : Option HttpError) (n : N)
      → (request_from t left attempt last c n).0 ≡ ok v
      → Succeeds c v left attempt n
  Succeeds-answer c v zero attempt last n h = cc (no_rounds t attempt last c n)
  Succeeds-answer c v (suc left) attempt last n h = elim (Attempt-cases (classify (t.send c n).0)) [
    | inl (w, p) ↦ inl (cc (round_answered t left attempt last c n w p))
    | inr (inl (e, p)) ↦ cc (round_crashed t left attempt last c n e p)
    | inr (inr (e, p)) ↦ elim (Bool-cases (attempt == 3 || is_final e)) [
      | inl q ↦ cc (round_ended t left attempt last c n e p q)
      | inr q ↦ inr (
        e,
        p,
        ground arith,
        Succeeds-answer c v left (attempt + 1) (some e) (t.sleep (backoff attempt) (t.send c n).1)
            (cc (round_again t left attempt last c n e p q)),
      )
    ]
  ]

  -- The client returns a value exactly when one of the first four attempts is answered with it and the
  -- attempts before that one met errors which are tried again.
  pub request-ok_iff :
      (c : Call) (v : Json) (n : N) → ((request t c n).0 ≡ ok v) ↔ Succeeds c v 4 0 n
  unfolding request
  request-ok_iff c v n =
      (Succeeds-answer c v 4 0 none n, answer-Succeeds c v 4 0 none n (omega arith))
