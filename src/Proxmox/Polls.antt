-- ===== src/Proxmox/Polls.antt =====
-- A request of `ProxmoxClient` ends, and so does a polling loop: its fuel is enough.
use clusteration.Base.{
  ℕ, zero, suc, ◌+◌, ◌*◌, ◌/◌, ◌≤◌, ◌≡◌, refl, ◌≢◌, ◌⊎◌, inl, inr, false, Option, none, some, arith,
  leb, Bool-cases,
}
use clusteration.Base.Exec.{Exc, out_of_fuel, Result, ok, err, Exec}
use clusteration.Base.Exec.Ends.{IsFine, Ends}
use clusteration.Proxmox.{Call, Transport, IsMonotonic}
use clusteration.Proxmox.Request.{request}
use clusteration.Proxmox.Retry.Refusal.{request-IsFine}
use clusteration.Proxmox.Wait.{poll_from, poll}

module _ {N : Type 0} {t : Transport N} (mono : IsMonotonic t) where
  pub Ends-request : (c : Call) → Ends t.now (request t c)
  Ends-request c = record { at = request-IsFine mono c }

pub Answer-cases :
    {A : Type 0} (r : Result (Option A))
    → ((e : Exc) × (r ≡ err e)) ⊎ (((a : A) × (r ≡ ok (some a))) ⊎ (r ≡ ok none))
Answer-cases (err e) = inl (e, refl)
Answer-cases (ok (some a)) = inr (inl (a, refl))
Answer-cases (ok none) = inr (inr refl)

module _ {N : Type 0} {t : Transport N} (mono : IsMonotonic t) {A : Type 0} where
  -- One round, given that the rounds after a pause are fine.
  round-IsFine :
      (fuel : ℕ) (ask : Exec N (Option A)) (deadline interval : ℕ) (late : Result A) (n : N)
      → Ends t.now ask
      → late ≢ err out_of_fuel
      → (leb deadline (t.now (ask n).1) ≡ false
          → IsFine t.now n
              (poll_from t fuel ask deadline interval late (t.sleep interval (ask n).1)))
      → IsFine t.now n (poll_from t (suc fuel) ask deadline interval late n)
  unfolding poll_from
  round-IsFine fuel ask deadline interval late n ends ne later = elim (Answer-cases (ask n).0) [
    | inl (e, p) ↦ rw (p, poll_from) (λ h. (ends.at n).0 (cc (p, h)), (ends.at n).1)
    | inr (inl (a, p)) ↦ rw (p, poll_from) (λ h. cc h, (ends.at n).1)
    | inr (inr p) ↦ elim (Bool-cases (leb deadline (t.now (ask n).1))) [
      | inl q ↦ rw (p, q, poll_from) (ne, (ends.at n).1)
      | inr q ↦ rw (p, q, poll_from) (later q)
    ]
  ]

  poll_from-IsFine :
      (fuel : ℕ) (ask : Exec N (Option A)) (deadline interval : ℕ) (late : Result A) (n : N)
      → Ends t.now ask
      → late ≢ err out_of_fuel
      → deadline ≤ t.now n + fuel * interval
      → IsFine t.now n (poll_from t (suc fuel) ask deadline interval late n)
  poll_from-IsFine zero ask deadline interval late n ends ne enough =
      round-IsFine zero ask deadline interval late n ends ne λ q. absurd (ground (arith, ends.at n))
  poll_from-IsFine (suc g) ask deadline interval late n ends ne enough =
      round-IsFine (suc g) ask deadline interval late n ends ne λ q.
        let n' : N = t.sleep interval (ask n).1 in
        let passed : t.now n + interval ≤ t.now n' =
          omega (arith, ends.at n, mono.now-sleep interval (ask n).1) in
        let (fine, le) =
          poll_from-IsFine g ask deadline interval late n' ends ne
            (grind (arith, passed, enough)) in
        (fine, omega (arith, passed))

  -- A loop with a limit ends if its fuel reaches past the limit.
  pub Ends-poll :
      (limit interval : ℕ) (late : Result A) (ask : Exec N (Option A))
      → limit ≤ (limit / interval + 1) * interval
      → late ≢ err out_of_fuel
      → Ends t.now ask
      → Ends t.now (poll t limit interval late ask)
  unfolding poll
  Ends-poll limit interval late ask enough ne ends = record {
    at = λ n.
        let more : limit / interval + 2 ≡ suc (limit / interval + 1) = omega arith in
        rw more (
          poll_from-IsFine (limit / interval + 1) ask (t.now n + limit) interval late n ends ne
            (omega arith));
  }
