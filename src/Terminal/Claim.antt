-- ===== src/Terminal/Claim.antt =====
-- When a terminal session is handed out: `validate_and_claim_session` of
-- backend/app/services/terminal.py.
use clusteration.Base.{
  ℕ, String, ◌≡◌, ◌<◌, ◌↔◌, inl, inr, true, none, some, arith, ◌==◌, first, Option-cases,
}
use clusteration.Entities.{Vm, TerminalSession, connected, VmStatus, ready}
use clusteration.Database.{Db, get_vm}
use clusteration.Terminal.{
  address_of, is_claimable, is_reachable, claim_of, claim_found, validate_and_claim_session,
}

-- A VM that can be entered: it is there, has an address, runs, and has passed the SSH check.
abbrev pub CanBeEntered : Vm → Type 0
CanBeEntered vm =
    (vm.deleted_at ≡ none)
    × ((ip : String) × (address_of vm.ip_address ≡ some ip))
    × (vm.status ≡ VmStatus.running)
    × (vm.ssh_status ≡ ready)

reachable_iff : (vm : Vm) → (is_reachable vm ≡ true) ↔ CanBeEntered vm
unfolding is_reachable
reachable_iff vm = elim (Option-cases (address_of vm.ip_address)) [
  | inl p ↦ (λ h. ground arith, λ (there, (ip, q), runs, checked). cc (p, q))
  | inr (ip, p) ↦ (
    λ h. (ground arith, (ip, p), ground arith, ground arith),
    λ (there, has, runs, checked). ground arith,
  )
]

module _ (now sid : ℕ) (ts : TerminalSession) (vm : Vm) (db : Db)
    (found : first (λ (s : TerminalSession). s.id == sid) db.sessions ≡ some ts)
    (of : get_vm ts.vm_id db ≡ some vm) where
  -- A session that is in the database, with a VM that is, is handed out, as connected, exactly if it is
  -- pending or connected, its time is not over, and its VM is not deleted, runs, has an address and
  -- has passed the SSH check.
  pub claim_iff :
      ((validate_and_claim_session now (some sid) db).0
        ≡ some (record ts { status = connected }, vm))
      ↔ ((is_claimable ts.status ≡ true) × (now < ts.expires_at) × CanBeEntered vm)
  unfolding validate_and_claim_session claim_found claim_of
  claim_iff = rw (found, of) (ground (arith, reachable_iff vm))
