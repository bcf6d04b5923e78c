-- ===== src/Api/Lists/Errors.antt =====
-- The error that `list_vms` shows of a VM is its newest.
use clusteration.Base.{
  ℕ, ◌≤◌, ◌≡◌, refl, sym, ap, ◌∙◌, inl, inr, Bool, true, false, ◌||◌, any, not, List, [], ◌∷◌, map,
  first, keep, ◌&&◌, All, Option, none, some, ◌==◌, ltb, if◌then◌else◌, arith, Bool-cases,
  Option-cases,
}
use clusteration.Entities.{Vm, Job}
use clusteration.Database.{Db}
use clusteration.Api.Lists.{
  insert_row, order_rows, newest_first, serialize_vm, ErrorOf, error_of, set_default_error,
  collect_errors, error_jobs, live_vms, list_vms, is_live_vm, has_error, is_job_of_any,
}

module _ {A : Type 0} (created_at : A → ℕ) where
  -- No row is newer than one before it.
  abbrev pub IsNewestFirst : List A → Type 0
  IsNewestFirst [] = Unit
  IsNewestFirst (x ∷ xs) = All (λ y. created_at y ≤ created_at x) xs × IsNewestFirst xs

  abbrev at_least : A → A → Bool
  at_least x y = not (ltb (created_at x) (created_at y))

  All-insert_row :
      (P : A → Type 0) (x : A) (xs : List A) → P x → All P xs → All P (insert_row at_least x xs)
  unfolding insert_row
  All-insert_row P x [] p h = (p, tt)
  All-insert_row P x (y ∷ ys) p (h, hs) = elim (Bool-cases (at_least x y)) [
    | inl q ↦ rw q (p, (h, hs))
    | inr q ↦ rw q (h, All-insert_row P x ys p hs)
  ]

  All-older :
      (x y : A) (ys : List A)
      → created_at y ≤ created_at x
      → All (λ z. created_at z ≤ created_at y) ys
      → All (λ z. created_at z ≤ created_at x) ys
  All-older x y [] p h = tt
  All-older x y (z ∷ zs) p (h, hs) = (omega arith, All-older x y zs p hs)

  insert_row-IsNewestFirst :
      (x : A) (xs : List A) → IsNewestFirst xs → IsNewestFirst (insert_row at_least x xs)
  unfolding insert_row
  insert_row-IsNewestFirst x [] h = (tt, tt)
  insert_row-IsNewestFirst x (y ∷ ys) (h, hs) = elim (Bool-cases (at_least x y)) [
    | inl q ↦ rw q ((ground arith, All-older x y ys (ground arith) h), (h, hs))
    | inr q ↦ rw q (
      All-insert_row (λ z. created_at z ≤ created_at y) x ys (ground arith) h,
      insert_row-IsNewestFirst x ys hs,
    )
  ]

  pub newest_first-IsNewestFirst : (xs : List A) → IsNewestFirst (newest_first created_at xs)
  unfolding newest_first order_rows
  newest_first-IsNewestFirst [] = tt
  newest_first-IsNewestFirst (x ∷ xs) =
      insert_row-IsNewestFirst x (newest_first created_at xs) (newest_first-IsNewestFirst xs)

abbrev pub is_job_of : ℕ → Job → Bool
is_job_of id job = elim job.vm_id [ none ↦ false | some x ↦ x == id ]

-- The first of two, where there is one.
abbrev or_then : Option Job → Option Job → Option Job
or_then none o = o
or_then (some job) o = some job

or_then-none : (o : Option Job) → or_then o none ≡ o
or_then-none none = refl
or_then-none (some job) = refl

or_then_if :
    (o : Option Job) (b : Bool) (job : Job) (rest : Option Job)
    → or_then (or_then o (if b then some job else none)) rest
      ≡ or_then o (if b then some job else rest)
or_then_if o b job rest = ground arith

error_of-set_default_error :
    (id key : ℕ) (job : Job) (errors : List ErrorOf)
    → error_of id (set_default_error key job errors)
      ≡ or_then (error_of id errors) (if key == id then some job else none)
unfolding error_of set_default_error
error_of-set_default_error id key job [] = refl
error_of-set_default_error id key job (e ∷ es) =
    ground (arith, error_of-set_default_error id key job es)

is_job_of_key : (id key : ℕ) (job : Job) → job.vm_id ≡ some key → is_job_of id job ≡ (key == id)
is_job_of_key id key job p = rw p refl

first-job_of :
    (id key : ℕ) (job : Job) (jobs : List Job)
    → job.vm_id ≡ some key
    → first (is_job_of id) (job ∷ jobs)
      ≡ (if key == id then some job else first (is_job_of id) jobs)
first-job_of id key job jobs p =
    ap (λ b. if b then some job else first (is_job_of id) jobs) (is_job_of_key id key job p)

error_of-collect_errors :
    (id : ℕ) (jobs : List Job) (errors : List ErrorOf)
    → error_of id (collect_errors jobs errors)
      ≡ or_then (error_of id errors) (first (is_job_of id) jobs)
unfolding collect_errors
error_of-collect_errors id [] errors = sym (or_then-none (error_of id errors))
error_of-collect_errors id (job ∷ jobs) errors = elim (Option-cases job.vm_id) [
  | inl p ↦ rw p (error_of-collect_errors id jobs errors)
  | inr (key, p) ↦ simp p (
      error_of-collect_errors id jobs (set_default_error key job errors)
      ∙ ap (λ o. or_then o (first (is_job_of id) jobs))
          (error_of-set_default_error id key job errors)
      ∙ or_then_if (error_of id errors) (key == id) job (first (is_job_of id) jobs)
      ∙ ap (or_then (error_of id errors)) (sym (first-job_of id key job jobs p)))
]

map-same :
    {A B : Type 0} (f g : A → B) → ((x : A) → f x ≡ g x) → (xs : List A) → map f xs ≡ map g xs
map-same f g h [] = refl
map-same f g h (x ∷ xs) = ground (arith, h x, map-same f g h xs)

any-insert_row :
    {A : Type 0} (before : A → A → Bool) (p : A → Bool) (x : A) (xs : List A)
    → any p (insert_row before x xs) ≡ (p x || any p xs)
unfolding insert_row
any-insert_row before p x [] = refl
any-insert_row before p x (y ∷ ys) = ground (arith, any-insert_row before p x ys)

-- A query's order neither adds nor loses rows.
any-newest_first :
    {A : Type 0} (created_at : A → ℕ) (p : A → Bool) (xs : List A)
    → any p (newest_first created_at xs) ≡ any p xs
unfolding newest_first order_rows
any-newest_first created_at p [] = refl
any-newest_first created_at p (x ∷ xs) =
    any-insert_row (at_least created_at) p x (newest_first created_at xs)
    ∙ ap (λ b. p x || b) (any-newest_first created_at p xs)

any-keep :
    {A : Type 0} (q p : A → Bool) (xs : List A) → any p (keep q xs) ≡ any (λ x. q x && p x) xs
any-keep q p [] = refl
any-keep q p (x ∷ xs) = ground (arith, any-keep q p xs)

-- `list_vms` shows the VMs that are not deleted, and no other, the newest first, each as `serialize_vm` does
-- with the newest of its jobs: of those that belong to such a VM and have an error, and no other. A VM is
-- among the rows, and a job among the errors, exactly if any test that it passes says so.
pub list_vms-newest_errors :
    (db : Db)
    → (list_vms db
        ≡ map
            (λ (v : Vm). serialize_vm v (first (is_job_of v.id) (error_jobs db (live_vms db))))
            (live_vms db))
      × IsNewestFirst (λ (j : Job). j.created_at) (error_jobs db (live_vms db))
      × IsNewestFirst (λ (v : Vm). v.created_at) (live_vms db)
      × ((p : Vm → Bool)
          → any p (live_vms db)
            ≡ any (λ (v : Vm). elim v.deleted_at [ none ↦ true | some _ ↦ false ] && p v) db.vms)
      × ((p : Job → Bool)
          → any p (error_jobs db (live_vms db))
            ≡ any
                (λ (j : Job).
                  (elim j.vm_id [
                    | none ↦ false
                    | some id ↦ any (λ (v : Vm). v.id == id) (live_vms db)
                  ]
                    && elim j.error [ none ↦ false | some _ ↦ true ])
                  && p j)
                db.jobs)
unfolding list_vms error_of error_jobs live_vms
list_vms-newest_errors db = (
  map-same _ _
      (λ v. ap (serialize_vm v) (error_of-collect_errors v.id (error_jobs db (live_vms db)) []))
      (live_vms db),
  newest_first-IsNewestFirst (λ (j : Job). j.created_at)
      (keep (λ (j : Job). is_job_of_any (live_vms db) j && has_error j) db.jobs),
  newest_first-IsNewestFirst (λ (v : Vm). v.created_at) (keep is_live_vm db.vms),
  λ p.
      any-newest_first (λ (v : Vm). v.created_at) p (keep is_live_vm db.vms)
      ∙ any-keep is_live_vm p db.vms,
  λ p.
      any-newest_first (λ (j : Job). j.created_at) p
        (keep (λ (j : Job). is_job_of_any (live_vms db) j && has_error j) db.jobs)
      ∙ any-keep (λ (j : Job). is_job_of_any (live_vms db) j && has_error j) p db.jobs,
)
