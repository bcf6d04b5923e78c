-- ===== src/Lifecycle/Provision/OneVm.antt =====
-- The provisioning of a VM concerns one VM of Proxmox, whichever VMID it is given.
use clusteration.Base.{ℕ, ◌≡◌, true, inl, inr, String, Option, none, some, All, List, [], ◌∷◌}
use clusteration.Base.Json.{Json}
use clusteration.Base.Exec.{pure, ◌>>=◌, Exec}
use clusteration.Base.Exec.Keeps.{Keeps}
use clusteration.Base.Exec.Then.{Then, Then-bind, Then-keeps, Then-after, Then-holds}
use clusteration.Entities.{Template}
use clusteration.Settings.{Settings}
use clusteration.Proxmox.{Call, Transport, clone}
use clusteration.Proxmox.Request.{request}
use clusteration.Proxmox.Trace.{Traced, traced}
use clusteration.Proxmox.Calls.{Sends, is_read, sends_rules}
use clusteration.Proxmox.Resolve.Calls.{resolve_template_node-Sends, take_next_id-Sends}
use clusteration.Lifecycle.{Run, call, find_template}
use clusteration.Lifecycle.Rules.{OnNet, net_rules}
use clusteration.Lifecycle.Provision.{
  start_clone, provision_vm_from_template, found_template, or_missing, create_vm_job,
}
use clusteration.Lifecycle.Provision.Calls.{IsAllowed, Only, record_clone-Only, finish_clone-Only}

-- Every request is of the earlier phase.
abbrev pub Before : {N : Type 0} → (Call → Type 0) → Run (Traced N) → Type 0
Before Earlier = OnNet (Sends Earlier)

All-earlier :
    (Earlier : Call → Type 0) (v : ℕ) (cs : List Call)
    → All Earlier cs
    → All (IsAllowed Earlier v) cs
All-earlier Earlier v [] h = tt
All-earlier Earlier v (c ∷ cs) (h, hs) = (inl h, All-earlier Earlier v cs hs)

-- Beside these, every request concerns one VM, whichever it is.
abbrev pub OneVm : {N : Type 0} → (Call → Type 0) → Run (Traced N) → Type 0
OneVm Earlier r = (v : ℕ) × Only Earlier v r

module _ {N : Type 0} (Earlier : Call → Type 0) where
  Before-Only : (v : ℕ) (r : Run (Traced N)) → Before Earlier r → Only Earlier v r
  unfolding OnNet Sends
  Before-Only v r h = All-earlier Earlier v r.net.calls h

  pub Before-OneVm : (r : Run (Traced N)) → Before Earlier r → OneVm Earlier r
  Before-OneVm r h = (0, Before-Only 0 r h)

module _ {N : Type 0} (t : Transport N) (settings : Settings) (phase : String)
    (Earlier : Call → Type 0) (reads : (c : Call) → is_read c ≡ true → Earlier c) where
  clone_from-Then :
      (node hostname : String) (template_vmid v : ℕ)
      → Then {A = ℕ × Json}
          (Before Earlier)
          (do
            upid ← call (request (traced t) (clone node template_vmid v hostname))
            pure (v, upid))
          (λ found r. Only Earlier found.0 r)
          (OneVm Earlier)
  unfolding pure
  clone_from-Then node hostname template_vmid v =
      Then-bind (λ upid. Only Earlier v)
        (call (request (traced t) (clone node template_vmid v hostname))) (λ upid. pure (v, upid))
        (record {
          at = λ r h.
              (Then-keeps (call (request (traced t) (clone node template_vmid v hostname)))
                  (search (net_rules, sends_rules, inr)) (λ upid r h. h) (λ r h. (v, h))).at
                r (Before-Only Earlier v r h);
        })
        (λ upid. record { at = λ r h. h })

  start_clone-Then :
      (template : Template)
      → Then {A = ℕ × Json}
          (Before Earlier)
          (start_clone (traced t) settings phase template)
          (λ found r. Only Earlier found.0 r)
          (OneVm Earlier)
  unfolding start_clone
  start_clone-Then template =
      search
        (
          Then-after, net_rules, reads, resolve_template_node-Sends, take_next_id-Sends,
          clone_from-Then, Before-OneVm,
        )
        depth 24

  -- What follows the clone's start stays with the VM that is cloned.
  cloned-Then :
      (template : Template) (f : ℕ × Json → Exec (Run (Traced N)) Unit)
      → ((v : ℕ) (upid : Json) → Keeps (Only Earlier v) (f (v, upid)))
      → Then
          (Before Earlier)
          (start_clone (traced t) settings phase template >>= f)
          (λ _. OneVm Earlier)
          (OneVm Earlier)
  cloned-Then template f k =
      Then-bind (λ found r. Only Earlier found.0 r) (start_clone (traced t) settings phase template)
        f (start_clone-Then template)
        (λ (v, upid). Then-keeps (f (v, upid)) (k v upid) (λ _ r h. (v, h)) (λ r h. (v, h)))

  pub provision-Then :
      (template : Template) (password : String)
      → Then
          (Before Earlier)
          (provision_vm_from_template (traced t) settings phase template password)
          (λ _. OneVm Earlier)
          (OneVm Earlier)
  unfolding provision_vm_from_template
  provision-Then template password =
      search
        (Then-after, net_rules, cloned-Then, record_clone-Only, finish_clone-Only, Before-OneVm)
        depth 12

module _ {N : Type 0} (t : Transport N) (settings : Settings) (templates : List Template)
    (Earlier : Call → Type 0) (reads : (c : Call) → is_read c ≡ true → Earlier c) where
  or_missing-Before :
      (found : Option Template)
      → Keeps (Before Earlier) (or_missing (traced t) settings templates found)
  unfolding or_missing
  or_missing-Before none = search net_rules
  or_missing-Before (some template) = search net_rules

  found_template-Before :
      (os : String) → Keeps (Before Earlier) (found_template (traced t) settings templates os)
  unfolding found_template
  found_template-Before os = or_missing-Before (find_template os templates)

  create_vm_job-Then :
      (password : String)
      → Then
          (Before Earlier)
          (create_vm_job (traced t) settings templates password)
          (λ _. OneVm Earlier)
          (OneVm Earlier)
  unfolding create_vm_job
  create_vm_job-Then password =
      search
        (
          Then-after,
          net_rules,
          found_template-Before,
          provision-Then t settings,
          reads,
          Before-OneVm,
        )
        depth 8

-- A request that only reads.
abbrev pub IsReading : Call → Type 0
IsReading c = is_read c ≡ true

module _ {N : Type 0} (t : Transport N) (settings : Settings) (templates : List Template) where
  -- The job that creates a VM, begun when every request only read, changes at most one VM of Proxmox,
  -- however the job ends: beside requests that only read, every request clones to one VMID, or
  -- configures, resizes, starts, reboots or enters that VMID. None stops or destroys a VM.
  pub create_vm_job-changes_one_vm :
      (password : String) (r : Run (Traced N))
      → All IsReading r.net.calls
      → (v : ℕ) × All
          (IsAllowed IsReading v)
          (create_vm_job (traced t) settings templates password r).1.net.calls
  unfolding OnNet Sends
  create_vm_job-changes_one_vm password r before =
      Then-holds (create_vm_job (traced t) settings templates password)
        (create_vm_job-Then t settings templates IsReading (λ c h. h) password) r before
