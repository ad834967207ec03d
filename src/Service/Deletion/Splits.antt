-- ===== src/Service/Deletion/Splits.antt =====
-- What the statements of server/internal/repository/artifact_support.go make of a table of tasks in
-- which one id stands once.
use mite.Prelude.{
  ◌≡◌, refl, ◌∙◌, ap, inl, inr, arith, Bool, true, false, some, List, [], ◌∷◌, ◌++◌, Bool-cases,
  ◌==◌, eq_of_==, ==_refl,
}
use mite.Text.{eq_str}
use mite.Domain.Value.{DomainId}
use mite.Domain.Artifact.{ArtifactDeletionTask}
use mite.Repository.Deletions.{find_where, update_where, without}
use mite.Service.Deletion.Queue.{has_id}

-- No id stands twice: the primary key of the table.
abbrev pub IsDistinct : List ArtifactDeletionTask → Type 0
IsDistinct [] = Unit {0}
IsDistinct (t ∷ ts) = (has_id t.id ts ≡ false) × IsDistinct ts

-- An update whose condition holds only of rows with the id.
module _ (p : ArtifactDeletionTask → Bool) (id : DomainId)
    (within : (x : ArtifactDeletionTask) → (x.id == id) ≡ false → p x ≡ false) where
  pub find_where-split :
      (xs ys : List ArtifactDeletionTask) (t : ArtifactDeletionTask)
      → has_id id xs ≡ false
      → p t ≡ true
      → find_where p (xs ++ t ∷ ys) ≡ some t
  unfolding find_where has_id
  find_where-split [] ys t h q = rw q refl
  find_where-split (x ∷ xs) ys t h q = elim (Bool-cases (x.id == id)) [
    | inl e ↦ absurd (ground (arith, h, e))
    | inr e ↦ rw (within x e) (find_where-split xs ys t (ground (arith, h, e)) q)
  ]

  update_where-apart :
      (f : ArtifactDeletionTask → ArtifactDeletionTask) (ys : List ArtifactDeletionTask)
      → has_id id ys ≡ false
      → update_where p f ys ≡ ys
  unfolding update_where has_id
  update_where-apart f [] h = refl
  update_where-apart f (y ∷ ys) h = elim (Bool-cases (y.id == id)) [
    | inl e ↦ absurd (ground (arith, h, e))
    | inr e ↦ rw (within y e) (ap (λ zs. y ∷ zs) (update_where-apart f ys (ground (arith, h, e))))
  ]

  pub update_where-split :
      (f : ArtifactDeletionTask → ArtifactDeletionTask) (xs ys : List ArtifactDeletionTask)
      (t : ArtifactDeletionTask)
      → has_id id xs ≡ false
      → has_id id ys ≡ false
      → p t ≡ true
      → update_where p f (xs ++ t ∷ ys) ≡ xs ++ f t ∷ ys
  unfolding update_where has_id
  update_where-split f [] ys t h k q = rw q (ap (λ zs. f t ∷ zs) (update_where-apart f ys k))
  update_where-split f (x ∷ xs) ys t h k q = elim (Bool-cases (x.id == id)) [
    | inl e ↦ absurd (ground (arith, h, e))
    | inr e ↦
        rw (within x e)
          (ap (λ zs. x ∷ zs) (update_where-split f xs ys t (ground (arith, h, e)) k q))
  ]

without-apart :
    (id : DomainId) (ys : List ArtifactDeletionTask) → has_id id ys ≡ false → without id ys ≡ ys
unfolding without has_id
without-apart id [] h = refl
without-apart id (y ∷ ys) h = elim (Bool-cases (y.id == id)) [
  | inl e ↦ absurd (ground (arith, h, e))
  | inr e ↦ rw e (ap (λ zs. y ∷ zs) (without-apart id ys (ground (arith, h, e))))
]

pub without-split :
    (id : DomainId) (xs ys : List ArtifactDeletionTask) (t : ArtifactDeletionTask)
    → has_id id xs ≡ false
    → has_id id ys ≡ false
    → t.id ≡ id
    → without id (xs ++ t ∷ ys) ≡ xs ++ ys
unfolding without has_id
without-split id [] ys t h k q = rw (q, ==_refl id) (without-apart id ys k)
without-split id (x ∷ xs) ys t h k q = elim (Bool-cases (x.id == id)) [
  | inl e ↦ absurd (ground (arith, h, e))
  | inr e ↦ rw e (ap (λ zs. x ∷ zs) (without-split id xs ys t (ground (arith, h, e)) k q))
]

-- What the absence of an id from a split table says of its parts.
has_id-split :
    (id : DomainId) (xs ys : List ArtifactDeletionTask) (t : ArtifactDeletionTask)
    → has_id id (xs ++ t ∷ ys) ≡ false
    → ((t.id == id) ≡ false) × (has_id id (xs ++ ys) ≡ false)
unfolding has_id
has_id-split id [] ys t h = ground (arith, h)
has_id-split id (x ∷ xs) ys t h = elim (Bool-cases (x.id == id)) [
  | inl e ↦ absurd (ground (arith, h, e))
  | inr e ↦ let rest = has_id-split id xs ys t (ground (arith, h, e)) in (rest.0, rw e (rest.1))
]

has_id-swap :
    (id : DomainId) (xs ys : List ArtifactDeletionTask) (t u : ArtifactDeletionTask)
    → u.id ≡ t.id
    → has_id id (xs ++ u ∷ ys) ≡ has_id id (xs ++ t ∷ ys)
unfolding has_id
has_id-swap id [] ys t u e = rw e refl
has_id-swap id (x ∷ xs) ys t u e = rw (has_id-swap id xs ys t u e) refl

pub IsDistinct-split :
    (xs ys : List ArtifactDeletionTask) (t : ArtifactDeletionTask)
    → IsDistinct (xs ++ t ∷ ys)
    → (has_id t.id xs ≡ false) × (has_id t.id ys ≡ false)
unfolding has_id
IsDistinct-split [] ys t d = (refl, d.0)
IsDistinct-split (x ∷ xs) ys t d = elim (Bool-cases (x.id == t.id)) [
  | inl e ↦
      absurd
        (itself (ap (λ k. k == x.id) (eq_of_== x.id t.id e) ∙ (has_id-split x.id xs ys t d.0).0))
  | inr e ↦ let rest = IsDistinct-split xs ys t d.1 in (rw e (rest.0), rest.1)
]
  where
    itself : (x.id == x.id) ≡ false → ⊥
    itself h = ground (arith, h, ==_refl x.id)

pub IsDistinct-drop :
    (xs ys : List ArtifactDeletionTask) (t : ArtifactDeletionTask)
    → IsDistinct (xs ++ t ∷ ys)
    → IsDistinct (xs ++ ys)
IsDistinct-drop [] ys t d = d.1
IsDistinct-drop (x ∷ xs) ys t d = ((has_id-split x.id xs ys t d.0).1, IsDistinct-drop xs ys t d.1)

pub IsDistinct-swap :
    (xs ys : List ArtifactDeletionTask) (t u : ArtifactDeletionTask)
    → u.id ≡ t.id
    → IsDistinct (xs ++ t ∷ ys)
    → IsDistinct (xs ++ u ∷ ys)
IsDistinct-swap [] ys t u e d = (ap (λ id. has_id id ys) e ∙ d.0, d.1)
IsDistinct-swap (x ∷ xs) ys t u e d =
    (has_id-swap x.id xs ys t u e ∙ d.0, IsDistinct-swap xs ys t u e d.1)
