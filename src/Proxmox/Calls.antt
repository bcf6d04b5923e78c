-- ===== src/Proxmox/Calls.antt =====
-- The requests that the functions of `ProxmoxClient` may send: those that look something up, and a
-- given few beside them.
use clusteration.Base.{
  ℕ, zero, suc, ◌+◌, ◌/◌, ◌≡◌, ◌⊎◌, inl, inr, refl, String, Bool, true, false, Option, none, some,
  List, [], ◌∷◌, All, ◌=ₛ◌, if◌then◌else◌, leb, Bool-cases,
}
use clusteration.Base.Exec.{Result, Exec}
use clusteration.Base.Exec.Keeps.{Keeps, keeps_rules}
use clusteration.Proxmox.{
  Call, Transport, next_id, cluster_resources, vm_config, status_current, task_status,
  network_interfaces, exec_status, storage_status,
}
use clusteration.Proxmox.Request.{request}
use clusteration.Proxmox.Polls.{Answer-cases}
use clusteration.Proxmox.Retry.{repeat, request-sends}
use clusteration.Proxmox.Trace.{Traced, traced}
use clusteration.Proxmox.Wait.{poll_from, poll}

-- A request that changes nothing in Proxmox.
abbrev pub is_read : Call → Bool
is_read next_id = true
is_read (cluster_resources _) = true
is_read (vm_config _ _) = true
is_read (status_current _ _) = true
is_read (task_status _ _) = true
is_read (network_interfaces _ _) = true
is_read (exec_status _ _ _) = true
is_read (storage_status _ _) = true
is_read _ = false

-- Every request so far is of this kind.
unfoldable pub Sends : {N : Type 0} → (Call → Type 0) → Traced N → Type 0
Sends C s = All C s.calls

All-repeat :
    (C : Call → Type 0) (k : ℕ) (c : Call) (cs : List Call) → C c → All C cs → All C (repeat k c cs)
All-repeat C zero c cs p ps = ps
All-repeat C (suc k) c cs p ps = (p, All-repeat C k c cs p ps)

module _ {N : Type 0} (t : Transport N) (C : Call → Type 0) where
  pub Sends-request : (c : Call) → C c → Keeps (Sends C) (request (traced t) c)
  unfolding Sends
  Sends-request c p = record {
    at = λ s h. let (k, ge, le, eq) = request-sends t c s in rw eq (All-repeat C k c s.calls p h);
  }

module _ {N A : Type 0} (t : Transport N) (C : Call → Type 0) where
  -- One step of the loop keeps the calls if the rest does.
  poll_from-Sends :
      (fuel : ℕ) (ask : Exec (Traced N) (Option A)) (deadline interval : ℕ) (late : Result A)
      → Keeps (Sends C) ask
      → Keeps (Sends C) (poll_from (traced t) fuel ask deadline interval late)
  unfolding poll_from Sends
  poll_from-Sends zero ask deadline interval late k = record { at = λ s h. h }
  poll_from-Sends (suc fuel) ask deadline interval late k = record {
    at = λ s h. elim (Answer-cases (ask s).0) [
      | inl (e, p) ↦ rw (p, poll_from) (k.at s h)
      | inr (inl (a, p)) ↦ rw (p, poll_from) (k.at s h)
      | inr (inr p) ↦ elim (Bool-cases (leb deadline ((traced t).now (ask s).1))) [
        | inl q ↦ rw (p, q, poll_from) (k.at s h)
        | inr q ↦
            rw (p, q, poll_from)
              ((poll_from-Sends fuel ask deadline interval late k).at
                ((traced t).sleep interval (ask s).1) (k.at s h))
      ]
    ];
  }

  pub Sends-poll :
      (limit interval : ℕ) (late : Result A) (ask : Exec (Traced N) (Option A))
      → Keeps (Sends C) ask
      → Keeps (Sends C) (poll (traced t) limit interval late ask)
  unfolding poll
  Sends-poll limit interval late ask k = record {
    at = λ s.
        (poll_from-Sends (limit / interval + 2) ask ((traced t).now s + limit) interval late k).at
          s;
  }

pub ruleset sends_rules = (keeps_rules, Sends-request, refl)
