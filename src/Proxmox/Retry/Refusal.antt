-- ===== src/Proxmox/Retry/Refusal.antt =====
-- What `ProxmoxClient._request` raises, and that it ends.
use clusteration.Base.{
  ℕ, zero, ◌∙◌, suc, ◌+◌, ◌≡◌, ◌≢◌, ◌⊎◌, inl, inr, true, Option, none, some, arith, Bool-cases,
  ◌==◌, ◌||◌, String, ◌<>◌,
}
use clusteration.Base.Exec.{proxmox, auth, out_of_fuel, err}
use clusteration.Base.Exec.Ends.{IsFine}
use clusteration.Proxmox.{Call, Transport, Response, response, Outcome, IsMonotonic}
use clusteration.Proxmox.Request.{
  HttpError, status, crashed, caught, classify, is_final, give_up, backoff, is_retry_status,
  sanitize_proxmox_error, request_from, request,
}
use clusteration.Proxmox.Paths.{method_of, path_of}
use clusteration.Proxmox.Retry.{
  Attempt-cases, round_answered, round_crashed, round_ended, round_again, no_rounds,
}

-- The message of a refused call.
abbrev pub refusal : Call → Response → String
refusal c r =
    "Proxmox recusou "
    <> method_of c
    <> " "
    <> path_of c
    <> ": "
    <> sanitize_proxmox_error (some (status r))

abbrev pub IsRefusal : Response → Type 0
IsRefusal r = (r.status_code ≡ 401) ⊎ (r.status_code ≡ 403)

classify_refused : (r : Response) → IsRefusal r → classify (response r) ≡ caught (status r)
unfolding classify is_retry_status
classify_refused r s = ground arith

is_final_refused : (r : Response) → IsRefusal r → is_final (status r) ≡ true
unfolding is_final is_retry_status
is_final_refused r s = ground arith

give_up_refused :
    (c : Call) (r : Response)
    → IsRefusal r
    → give_up c (some (status r)) ≡ proxmox auth (refusal c r)
unfolding give_up
give_up_refused c r (inl s) = rw s
give_up_refused c r (inr s) = rw s

crashed-ne-out_of_fuel : (o : Outcome) → classify o ≢ crashed out_of_fuel
unfolding classify
crashed-ne-out_of_fuel o h = ground arith

give_up-ne-out_of_fuel : (c : Call) (last : Option HttpError) → give_up c last ≢ out_of_fuel
unfolding give_up
give_up-ne-out_of_fuel c last h = ground arith

module _ {N : Type 0} (t : Transport N) where
  -- A refusal, 401 or 403, is not tried again: one request is sent, and what is raised is the error of
  -- authentication that names the call.
  pub request_refused :
      (c : Call) (n : N) (r : Response)
      → (t.send c n).0 ≡ response r
      → IsRefusal r
      → request t c n ≡ (err (proxmox auth (refusal c r)), (t.send c n).1)
  unfolding request
  request_refused c n r p s =
      round_ended t 3 0 none c n (status r) (rw p (classify_refused r s))
        (rw (is_final_refused r s))
      ∙ rw (give_up_refused c r s)

module _ {N : Type 0} {t : Transport N} (mono : IsMonotonic t) where
  request_from-IsFine :
      (left attempt : ℕ) (last : Option HttpError) (c : Call) (n : N)
      → IsFine t.now n (request_from t left attempt last c n)
  request_from-IsFine zero attempt last c n =
      rw (no_rounds t attempt last c n) (λ h. give_up-ne-out_of_fuel c last (cc h), omega arith)
  request_from-IsFine (suc left) attempt last c n = elim (Attempt-cases (classify (t.send c n).0)) [
    | inl (v, p) ↦ rw (round_answered t left attempt last c n v p) (λ h. cc h, mono.now-send c n)
    | inr (inl (e, p)) ↦
        rw (round_crashed t left attempt last c n e p)
          (λ h. crashed-ne-out_of_fuel (t.send c n).0 (cc (h, p)), mono.now-send c n)
    | inr (inr (e, p)) ↦ elim (Bool-cases (attempt == 3 || is_final e)) [
      | inl q ↦
          rw (round_ended t left attempt last c n e p q)
            (λ h. give_up-ne-out_of_fuel c (some e) (cc h), mono.now-send c n)
      | inr q ↦
          let n' : N = t.sleep (backoff attempt) (t.send c n).1 in
          let (ne, le) = request_from-IsFine left (attempt + 1) (some e) c n' in
          rw (round_again t left attempt last c n e p q)
            (ne, omega (arith, mono.now-send c n, mono.now-sleep (backoff attempt) (t.send c n).1))
    ]
  ]

  pub request-IsFine : (c : Call) (n : N) → IsFine t.now n (request t c n)
  unfolding request
  request-IsFine c n = request_from-IsFine 4 0 none c n
