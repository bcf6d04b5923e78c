-- ===== src/Api/Sessions/Claims.antt =====
-- A session that the API makes can be entered: `create_terminal_session` of backend/app/api/routes.py
-- and `validate_and_claim_session` of backend/app/services/terminal.py together.
use mathlib.Core.Path.{subst}
use clusteration.Base.{
  sym, ℕ, ◌+◌, ◌≡◌, refl, ◌<◌, false, List, [], ◌∷◌, ◌++◌, first, none, some, ◌==◌, arith, not,
  ◌||◌,
}
use clusteration.Base.Exec.{ok, raise_if, modify, ◌>>=◌}
use clusteration.Entities.{Vm, TerminalSession, connected, is_running, is_ready}
use clusteration.Settings.{Settings}
use clusteration.Database.{get_vm}
use clusteration.Database.Lookup.{first-key}
use clusteration.Proxmox.{Transport}
use clusteration.Terminal.{validate_and_claim_session}
use clusteration.Terminal.Claim.{CanBeEntered, claim_iff}
use clusteration.Worker.{World}
use clusteration.Api.Guards.{get_live_vm-found}
use clusteration.Api.Sessions.{add_session, new_session, create_terminal_session}

-- A row that is added is found where no row had its key.
first-added :
    {A : Type 0} (key : A → ℕ) (k : ℕ) (xs : List A) (x : A)
    → key x ≡ k
    → first (λ a. key a == k) xs ≡ none
    → first (λ a. key a == k) (xs ++ x ∷ []) ≡ some x
first-added key k [] x same free = ground arith
first-added key k (a ∷ xs) x same free = ground (arith, first-added key k xs x)

module _ {N : Type 0} (t : Transport N) (settings : Settings) where
  created :
      (vm_id : ℕ) (vm : Vm) (w : World N)
      → get_vm vm_id w.db ≡ some vm
      → CanBeEntered vm
      → create_terminal_session t settings vm_id w ≡ (
        ok (new_session t settings vm w),
        record w { db = add_session (new_session t settings vm w) w.db },
      )
  unfolding create_terminal_session ◌>>=◌ raise_if modify
  created vm_id vm w found (there, has, runs, checked) =
      let passes : (not (is_running vm.status) || not (is_ready vm.ssh_status)) ≡ false =
        ground arith in
      rw (create_terminal_session, ◌>>=◌, get_live_vm-found vm_id vm w found there, passes)

  claimed :
      (vm_id now : ℕ) (vm : Vm) (w : World N)
      → get_vm vm_id w.db ≡ some vm
      → CanBeEntered vm
      → first (λ (s : TerminalSession). s.id == w.db.next_id) w.db.sessions ≡ none
      → now < t.utcnow w.net + 60
      → let ts = new_session t settings vm w in
        (validate_and_claim_session now (some ts.id) (add_session ts w.db)).0
        ≡ some (record ts { status = connected }, vm)
  claimed vm_id now vm w found enter fresh early =
      let ts = new_session t settings vm w in
      let same : vm.id ≡ vm_id = first-key (λ (v : Vm). v.id) vm_id w.db.vms vm found in
      (claim_iff now ts.id ts vm (add_session ts w.db)
          (first-added (λ (s : TerminalSession). s.id) ts.id w.db.sessions ts refl fresh)
          (subst (λ k. get_vm k w.db ≡ some vm) (sym same) found)).1
        (refl, omega arith, enter)

  -- A session that is asked for a VM that can be entered is made, and it is handed out, as connected and
  -- with the VM, when it is claimed in the minute that follows, if no other session has its id and
  -- nothing has changed in between.
  pub create_terminal_session-claimed :
      (vm_id now : ℕ) (vm : Vm) (w : World N)
      → get_vm vm_id w.db ≡ some vm
      → CanBeEntered vm
      → first (λ (s : TerminalSession). s.id == w.db.next_id) w.db.sessions ≡ none
      → now < t.utcnow w.net + 60
      → (ts : TerminalSession) × ((create_terminal_session t settings vm_id w).0 ≡ ok ts)
        × ((validate_and_claim_session now
              (some ts.id)
              (create_terminal_session t settings vm_id w).1.db).0
            ≡ some (record ts { status = connected }, vm))
  create_terminal_session-claimed vm_id now vm w found enter fresh early =
      rw (created vm_id vm w found enter)
        (new_session t settings vm w, refl, claimed vm_id now vm w found enter fresh early)
