-- ===== src/Api/Hostnames.antt =====
-- No two VMs that are not deleted have the same hostname.
use clusteration.Base.{
  ℕ, ◌≡◌, refl, sym, inl, inr, String, Bool, false, ◌&&◌, List, [], ◌∷◌, ◌++◌, All, All-add, first,
  Option, none, some, arith, ◌=ₛ◌, Bool-cases, eq_iff,
}
use clusteration.Base.Text.{lower}
use clusteration.Base.Exec.{Exec, raise_if, modify, ◌>>=◌}
use clusteration.Base.Exec.Keeps.{Keeps, keeps_rules}
use clusteration.Base.Exec.Then.{Then, Then-bind, Then-after, Then-keeps, Then-holds}
use clusteration.Base.Json.{Fields}
use clusteration.Entities.{Vm, JobType, Template}
use clusteration.Settings.{Settings, VmSize}
use clusteration.Proxmox.{Transport}
use clusteration.Worker.{World, Payload}
use clusteration.Api.{Request, add_queued, audit, audit_vm, put_in_queue}
use clusteration.Api.Create.{
  VmCreate, is_live, has_hostname, free_hostname, create_locked, is_some, add_vm,
}

-- The other VM has the hostname of this one, and both are there.
abbrev clashes : Vm → Vm → Bool
clashes v u = is_live v && has_hostname (lower v.hostname) u

-- No two of the VMs clash.
abbrev pub AreDistinct : List Vm → Type 0
AreDistinct [] = Unit
AreDistinct (v ∷ vs) = All (λ u. clashes v u ≡ false) vs × AreDistinct vs

same_test : (s t : String) → (s =ₛ t) ≡ false → (t =ₛ s) ≡ false
same_test s t h = elim (Bool-cases (t =ₛ s)) [
  | inl p ↦ absurd (cc (h, (eq_iff s t).1 (sym ((eq_iff t s).0 p))))
  | inr p ↦ p
]

first-none :
    (p : Vm → Bool) (v : Vm) (vs : List Vm)
    → first p (v ∷ vs) ≡ none
    → (p v ≡ false) × (first p vs ≡ none)
first-none p v vs h = ground arith

clash_free :
    (v new : Vm)
    → lower new.hostname ≡ new.hostname
    → has_hostname new.hostname v ≡ false
    → clashes v new ≡ false
unfolding has_hostname
clash_free v new low h = ground (arith, same_test (lower v.hostname) new.hostname)

-- A VM whose hostname no VM has may be added.
AreDistinct-add :
    (vs : List Vm) (new : Vm)
    → lower new.hostname ≡ new.hostname
    → first (has_hostname new.hostname) vs ≡ none
    → AreDistinct vs
    → AreDistinct (vs ++ new ∷ [])
AreDistinct-add [] new low free d = (tt, tt)
AreDistinct-add (v ∷ vs) new low free (dv, d) =
    let (head, rest) = first-none (has_hostname new.hostname) v vs free in
    (
      All-add (λ u. clashes v u ≡ false) vs new dv (clash_free v new low head),
      AreDistinct-add vs new low rest d,
    )

-- Of the panel's VMs.
Distinct : {N : Type 0} → World N → Type 0
Distinct w = AreDistinct w.db.vms

Free : {N : Type 0} → String → World N → Type 0
Free hostname w = Distinct w × (first (has_hostname hostname) w.db.vms ≡ none)

none_found : (o : Option Vm) → is_some o ≡ false → o ≡ none
none_found none h = refl
none_found (some v) h = cc h

module _ {N : Type 0} where
  free_hostname-Then :
      (hostname : String)
      → Then Distinct (free_hostname {N = N} hostname) (λ _. Free hostname) Distinct
  unfolding free_hostname Distinct Free ◌>>=◌ raise_if
  free_hostname-Then hostname = record {
    at = λ w d. elim (Bool-cases (is_some (first (has_hostname hostname) w.db.vms))) [
      | inl p ↦ rw p d
      | inr p ↦ rw p (d, none_found (first (has_hostname hostname) w.db.vms) p)
    ];
  }

  add_vm-Then :
      (payload : VmCreate) (size : VmSize) (disk_gb : ℕ) (node : String) (now : ℕ)
      → lower payload.hostname ≡ payload.hostname
      → Then
          (Free payload.hostname)
          (add_vm {N = N} payload size disk_gb node now)
          (λ _. Distinct)
          Distinct
  unfolding add_vm Distinct Free ◌>>=◌ modify
  add_vm-Then payload size disk_gb node now low = record {
    at = λ w (d, free). AreDistinct-add w.db.vms _ low free d;
  }

module _ {N : Type 0} (t : Transport N) where
  Distinct-add_queued :
      (type : JobType) (vm : Vm) (meta : Fields) → Keeps Distinct (add_queued t type vm meta)
  unfolding add_queued Distinct ◌>>=◌ modify
  Distinct-add_queued type vm meta = record { at = λ w d. d }

  Distinct-audit :
      (settings : Settings) (req : Request) (action : String) (vm : Vm) (detail : Fields)
      → Keeps Distinct (audit t settings req action vm detail)
  unfolding audit Distinct audit_vm modify
  Distinct-audit settings req action vm detail = record { at = λ w d. d }

  Distinct-queue : (payload : Payload) → Keeps Distinct (put_in_queue {N = N} payload)
  unfolding put_in_queue Distinct
  Distinct-queue payload = record { at = λ w d. d }

module _ {N : Type 0} where
  Free-Distinct : (hostname : String) (w : World N) → Free hostname w → Distinct w
  unfolding Free
  Free-Distinct hostname w (d, free) = d

  -- The VM is added, and the rest leaves the VMs as they are.
  added-Then :
      {B : Type 0} (payload : VmCreate) (size : VmSize) (disk_gb : ℕ) (node : String) (now : ℕ)
      (f : Vm → Exec (World N) B)
      → lower payload.hostname ≡ payload.hostname
      → ((vm : Vm) → Keeps Distinct (f vm))
      → Then
          (Free payload.hostname)
          (add_vm payload size disk_gb node now >>= f)
          (λ _. Distinct)
          Distinct
  added-Then payload size disk_gb node now f low k =
      Then-bind (λ _. Distinct) _ f (add_vm-Then payload size disk_gb node now low)
        (λ vm. Then-keeps (f vm) (k vm) (λ _ w d. d) (λ w d. d))

module _ {N : Type 0} (t : Transport N) (settings : Settings) (templates : List Template)
    (req : Request) where
  create_locked-Then :
      (payload : VmCreate) (template : Template) (size : VmSize) (preflight : String × Option ℕ)
      → lower payload.hostname ≡ payload.hostname
      → Then Distinct
          (create_locked t settings templates req payload template size preflight)
          (λ _. Distinct)
          Distinct
  unfolding create_locked
  create_locked-Then payload template size (node, disk) low =
      Then-bind (λ _. Free payload.hostname) _ _ (free_hostname-Then payload.hostname)
        (λ _.
          search
            (
              Then-after, keeps_rules, Free-Distinct, added-Then, Distinct-add_queued,
              Distinct-audit, Distinct-queue,
            )
            depth 14)

  -- Where no two VMs that are not deleted have the same hostname, letter case aside, there are no such
  -- two behind the part of `create_vm` that runs under the lock, whatever the preflight found and
  -- whether a VM is added or an error is raised, if the payload's hostname is in lower case.
  pub create_locked-keeps_hostnames_distinct :
      (payload : VmCreate) (template : Template) (size : VmSize) (preflight : String × Option ℕ)
      (w : World N)
      → lower payload.hostname ≡ payload.hostname
      → AreDistinct w.db.vms
      → AreDistinct
          (create_locked t settings templates req payload template size preflight w).1.db.vms
  unfolding Distinct
  create_locked-keeps_hostnames_distinct payload template size preflight w low d =
      Then-holds (create_locked t settings templates req payload template size preflight)
        (create_locked-Then payload template size preflight low) w d
