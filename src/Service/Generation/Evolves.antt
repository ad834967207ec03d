-- ===== src/Service/Generation/Evolves.antt =====
-- The transactions of server/internal/service/guide_worker.go and `RetryGuideGenerationJob` change at most
-- one job each, and a recovery the running ones.
use mathlib.Core.Path.{subst}
use mite.Prelude.{
  ℕ, ◌≡◌, refl, ◌∙◌, sym, ap, ◌⊎◌, inl, inr, Bool, true, false, Option, none, some, Bool-cases,
  Option-cases, ◌==◌, eq_of_==, eq_nat, ok, err, &&-eq-true,
}
use mite.Text.{eq_str}
use mite.Domain.Errors.{Res}
use mite.Domain.Enums.{
  GuideGenerationJobStatus, eq_guide_generation_job_status, eq_support_session_status,
}
use mite.Domain.Value.{DomainId}
use mite.Domain.Guide.{GuideGenerationJob}
use mite.Repository.{Db, Tx, go_on, guarded, settle, ◌>>=◌}
use mite.Repository.Runs.{one}
use mite.Repository.Generation.{is_running_job, update_job, claimed_at}
use mite.Service.Generation.Rows.{Change}

abbrev pub Jobs : Type 0
Jobs = DomainId → Option GuideGenerationJob

-- The key of a row is its id.
abbrev pub IsFiled : Jobs → Type 0
IsFiled t = (id : DomainId) (job : GuideGenerationJob) → t id ≡ some job → job.id ≡ id

abbrev pub RowStep : Option GuideGenerationJob → Option GuideGenerationJob → Type 0
RowStep o o' =
    (o' ≡ o)
    ⊎ ((job : GuideGenerationJob) × (job' : GuideGenerationJob) × (o ≡ some job)
        × (o' ≡ some job')
        × Change job job')

-- Every row is as before, or one statement has changed it.
abbrev pub Evolves : Jobs → Jobs → Type 0
Evolves t t' = (id : DomainId) → RowStep (t id) (t' id)

abbrev pub IsQuiet {ℓ} : {A : Type ℓ} → Tx A → Type 0
IsQuiet m = (d : Db) → (m d).1.jobs ≡ d.jobs

abbrev pub IsEvolving {ℓ} : {A : Type ℓ} → Tx A → Type 0
IsEvolving m = (d : Db) → Evolves d.jobs (m d).1.jobs

module _ {ℓ κ} {A : Type ℓ} {B : Type κ} where
  pub after-IsQuiet :
      (x : Res A × Db) (k : A → Tx B) → ((a : A) → IsQuiet (k a)) → (go_on x k).1.jobs ≡ x.1.jobs
  after-IsQuiet (err e, d) k h = refl
  after-IsQuiet (ok a, d) k h = h a d

  pub bind-IsQuiet :
      (m : Tx A) (k : A → Tx B) → IsQuiet m → ((a : A) → IsQuiet (k a)) → IsQuiet (m >>= k)
  bind-IsQuiet m k h l d = after-IsQuiet (m d) k l ∙ h d

  after-IsEvolving :
      (x : Res A × Db) (k : A → Tx B)
      → ((a : A) → IsEvolving (k a))
      → Evolves x.1.jobs (go_on x k).1.jobs
  after-IsEvolving (err e, d) k h id = inl refl
  after-IsEvolving (ok a, d) k h id = h a d id

  -- A quiet step before a change, and one after it.
  pub before-IsEvolving :
      (m : Tx A) (k : A → Tx B) → IsQuiet m → ((a : A) → IsEvolving (k a)) → IsEvolving (m >>= k)
  before-IsEvolving m k q h d =
      subst (λ t. Evolves t (go_on (m d) k).1.jobs) (q d) (after-IsEvolving (m d) k h)

  pub then-IsEvolving :
      (m : Tx A) (k : A → Tx B) (d : Db)
      → Evolves d.jobs (m d).1.jobs
      → ((a : A) → IsQuiet (k a))
      → Evolves d.jobs ((m >>= k) d).1.jobs
  then-IsEvolving m k d e h = subst (Evolves d.jobs) (sym (after-IsQuiet (m d) k h)) e

module _ {ℓ} {A : Type ℓ} where
  pub quiet-IsEvolving : (m : Tx A) → IsQuiet m → IsEvolving m
  quiet-IsEvolving m q d id = inl (ap (λ (t : Jobs). t id) (q d))

  pub guarded-IsQuiet : (b : Bool) (m : Tx A) → IsQuiet m → IsQuiet (guarded b m)
  guarded-IsQuiet true m h d = refl
  guarded-IsQuiet false m h d = h d

  pub guarded-Evolves :
      (b : Bool) (m : Tx A) (d : Db)
      → Evolves d.jobs (m d).1.jobs
      → Evolves d.jobs (guarded b m d).1.jobs
  guarded-Evolves true m d h id = inl refl
  guarded-Evolves false m d h id = h id

  pub one-IsQuiet : (o : Option A) → IsQuiet (one o)
  one-IsQuiet none d = refl
  one-IsQuiet (some a) d = refl

  -- A transaction that ends with an error has changed nothing.
  pub settle-Evolves :
      (refused : Bool) (d : Db) (x : Res A × Db)
      → Evolves d.jobs x.1.jobs
      → Evolves d.jobs (settle refused d x).1.jobs
  settle-Evolves refused d (err e, d') h id = inl refl
  settle-Evolves true d (ok a, d') h id = inl refl
  settle-Evolves false d (ok a, d') h id = h id

-- An update of one row, where it changes the row that it finds.
pub update_job-Evolves :
    (p : GuideGenerationJob → Bool) (f : GuideGenerationJob → GuideGenerationJob) (id : DomainId)
    (d : Db)
    → ((job : GuideGenerationJob) → d.jobs id ≡ some job → p job ≡ true → Change job (f job))
    → Evolves d.jobs (update_job p f id (d.jobs id) d).1.jobs
update_job-Evolves p f id d h j = elim (Option-cases (d.jobs id)) [
  | inl n ↦ rw n (inl refl)
  | inr (job, n) ↦ elim (Bool-cases (p job)) [
    | inr q ↦ rw (n, q, update_job) (inl refl)
    | inl q ↦ elim (Bool-cases (id == j)) [
      | inr apart ↦ rw (n, q, update_job, apart) (inl refl)
      | inl same ↦
          rw (n, q, update_job, same)
            (inr (job, f job, ap d.jobs (sym (eq_of_== id j same)) ∙ n, refl, h job n q))
    ]
  ]
]

pub still_running :
    (expected : ℕ) (job : GuideGenerationJob)
    → claimed_at expected job ≡ true
    → job.status ≡ GuideGenerationJobStatus.running
still_running expected job h =
    eq_of_== job.status GuideGenerationJobStatus.running
      (&&-eq-true (is_running_job job) (job.revision == expected) h).0
