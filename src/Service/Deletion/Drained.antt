-- ===== src/Service/Deletion/Drained.antt =====
-- What the worker of server/internal/worker/artifact_deletion.go is to leave of a table of tasks once
-- it has tried each that is due.
use mite.Prelude.{
  ℕ, ◌+◌, ◌≤◌, ◌≡◌, refl, ◌∙◌, sym, ap, inl, inr, arith, true, false, none, some, List, [], ◌∷◌,
  ◌++◌, Bool-cases, Option-cases, Result-cases, ok, err, length, if◌then◌else◌,
}
use mite.Text.{Str, eq_str}
use mite.Domain.Errors.{Error, Res}
use mite.Domain.Support.{Time}
use mite.Domain.Artifact.{ArtifactDeletionTask, ArtifactDeletionTaskStatus, eq_deletion_status}
use mite.Repository.Deletions.{next_due, is_due, earlier}
use mite.Service.Deletion.{deletion_retry_delay}
use mite.Service.Deletion.Delay.{deletion_retry_delay-doubles}

-- The next task that is due is a task of the table, and due.
pub next_due-IsSplit :
    (now : Time) (ts : List ArtifactDeletionTask) (t : ArtifactDeletionTask)
    → next_due now ts ≡ some t
    → (is_due now t ≡ true)
      × (xs : List ArtifactDeletionTask) × (ys : List ArtifactDeletionTask) × (ts ≡ xs ++ t ∷ ys)
unfolding next_due
next_due-IsSplit now [] t h = cc
next_due-IsSplit now (u ∷ ts) t h = elim (Bool-cases (is_due now u)) [
  | inr q ↦ behind (next_due-IsSplit now ts t (ground (arith, q, h)))
  | inl q ↦ elim (Option-cases (next_due now ts)) [
    | inl n ↦ itself (ground (arith, q, n, h)) q
    | inr (v, n) ↦ elim (Bool-cases (earlier v u)) [
      | inl e ↦
          let same : some v ≡ some t = ground (arith, q, n, e, h) in
          behind (next_due-IsSplit now ts t (n ∙ same))
      | inr e ↦ itself (ground (arith, q, n, e, h)) q
    ]
  ]
]
  where
    behind :
        (is_due now t ≡ true)
          × (xs : List ArtifactDeletionTask) × (ys : List ArtifactDeletionTask) × (ts
              ≡ xs ++ t ∷ ys)
        → (is_due now t ≡ true)
          × (xs : List ArtifactDeletionTask) × (ys : List ArtifactDeletionTask) × (u ∷ ts
              ≡ xs ++ t ∷ ys)
    behind (d, xs, ys, e) = (d, u ∷ xs, ys, ap (λ zs. u ∷ zs) e)

    itself :
        u ≡ t
        → is_due now u ≡ true
        → (is_due now t ≡ true)
          × (xs : List ArtifactDeletionTask) × (ys : List ArtifactDeletionTask) × (u ∷ ts
              ≡ xs ++ t ∷ ys)
    itself e q = (ap (λ x. is_due now x) (sym e) ∙ q, [], ts, ap (λ x. x ∷ ts) e)

-- A due task whose object was not deleted waits again, one attempt later.
abbrev pub put_back : Time → ArtifactDeletionTask → ArtifactDeletionTask
put_back later t = record t {
  status = ArtifactDeletionTaskStatus.pending;
  attempt = t.attempt + 1;
  next_attempt_at = later + deletion_retry_delay (t.attempt + 1);
}

-- What is left of a task that was due, by the storage's answer, before the others.
abbrev pub attempted :
    Time
    → Res (Unit {0})
    → ArtifactDeletionTask
    → List ArtifactDeletionTask
    → List ArtifactDeletionTask
attempted later (ok done) t rest = rest
attempted later (err e) t rest = put_back later t ∷ rest

-- What is to be left of the tasks: each that is due has been tried once.
unfoldable pub drained :
    (Str → Res (Unit {0})) → Time → Time → List ArtifactDeletionTask → List ArtifactDeletionTask
drained delete now later [] = []
drained delete now later (t ∷ ts) =
    let rest = drained delete now later ts in
    if is_due now t then attempted later (delete t.storage_key) t rest else t ∷ rest

pub dues : Time → List ArtifactDeletionTask → ℕ
dues now [] = 0
dues now (t ∷ ts) = let rest = dues now ts in if is_due now t then rest + 1 else rest

pub dues-le-length : (now : Time) (ts : List ArtifactDeletionTask) → dues now ts ≤ length ts
unfolding dues
dues-le-length now [] = omega arith
dues-le-length now (t ∷ ts) = ground (arith, dues-le-length now ts)

pub dues-split :
    (now : Time) (xs ys : List ArtifactDeletionTask) (t : ArtifactDeletionTask)
    → is_due now t ≡ true
    → dues now (xs ++ t ∷ ys) ≡ dues now (xs ++ ys) + 1
unfolding dues
dues-split now [] ys t d = rw d refl
dues-split now (x ∷ xs) ys t d = ground (arith, dues-split now xs ys t d)

pub dues-kept :
    (now : Time) (xs ys : List ArtifactDeletionTask) (t : ArtifactDeletionTask)
    → is_due now t ≡ false
    → dues now (xs ++ t ∷ ys) ≡ dues now (xs ++ ys)
unfolding dues
dues-kept now [] ys t d = rw d refl
dues-kept now (x ∷ xs) ys t d = ground (arith, dues-kept now xs ys t d)

pub next_due-none :
    (now : Time) (ts : List ArtifactDeletionTask) → dues now ts ≤ 0 → next_due now ts ≡ none
unfolding dues next_due
next_due-none now [] h = refl
next_due-none now (t ∷ ts) h = elim (Bool-cases (is_due now t)) [
  | inl q ↦ absurd (ground (arith, q, h))
  | inr q ↦ rw q (next_due-none now ts (ground (arith, q, h)))
]

module _ (delete : Str → Res (Unit {0})) (now later : Time) where
  pub drained-idle :
      (ts : List ArtifactDeletionTask) → next_due now ts ≡ none → drained delete now later ts ≡ ts
  unfolding drained next_due
  drained-idle [] h = refl
  drained-idle (t ∷ ts) h = elim (Bool-cases (is_due now t)) [
    | inl q ↦ elim (Option-cases (next_due now ts)) [
      | inl n ↦ absurd (ground (arith, q, n, h))
      | inr (v, n) ↦ absurd (ground (arith, q, n, h))
    ]
    | inr q ↦ rw q (ap (λ zs. t ∷ zs) (drained-idle ts (ground (arith, q, h))))
  ]

  -- The first task that is tried may be taken out, or put back, before the others.
  pub drained-split :
      (xs ys : List ArtifactDeletionTask) (t : ArtifactDeletionTask)
      → is_due now t ≡ true
      → delete t.storage_key ≡ ok tt
      → drained delete now later (xs ++ ys) ≡ drained delete now later (xs ++ t ∷ ys)
  unfolding drained
  drained-split [] ys t d a = rw (d, a) refl
  drained-split (x ∷ xs) ys t d a = rw (drained-split xs ys t d a) refl

  pub drained-put_back :
      (xs ys : List ArtifactDeletionTask) (t : ArtifactDeletionTask) (e : Error)
      → is_due now t ≡ true
      → delete t.storage_key ≡ err e
      → is_due now (put_back later t) ≡ false
      → drained delete now later (xs ++ put_back later t ∷ ys)
        ≡ drained delete now later (xs ++ t ∷ ys)
  unfolding drained
  drained-put_back [] ys t e d a b = rw (d, a, b) refl
  drained-put_back (x ∷ xs) ys t e d a b = rw (drained-put_back xs ys t e d a b) refl

  pub put_back-rests :
      now ≤ later → (t : ArtifactDeletionTask) → is_due now (put_back later t) ≡ false
  put_back-rests h t = ground (arith, (deletion_retry_delay-doubles (t.attempt + 1)).0)

  -- Nothing of what is left is due.
  pub drained-none :
      now ≤ later
      → (ts : List ArtifactDeletionTask) → next_due now (drained delete now later ts) ≡ none
  unfolding drained next_due
  drained-none h [] = refl
  drained-none h (t ∷ ts) = elim (Bool-cases (is_due now t)) [
    | inr q ↦ rw (q, q) (drained-none h ts)
    | inl q ↦ elim (Result-cases (delete t.storage_key)) [
      | inr (_, a) ↦ rw (q, a) (drained-none h ts)
      | inl (e, a) ↦ rw (q, a, put_back-rests h t) (drained-none h ts)
    ]
  ]
