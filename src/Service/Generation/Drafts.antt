-- ===== src/Service/Generation/Drafts.antt =====
-- The drafts that `finishSuccess` of server/internal/service/guide_worker.go stores.
use mite.Prelude.{
  ℕ, ◌+◌, ◌≡◌, refl, ◌∙◌, sym, ap, inl, inr, arith, Bool, Bool-cases, ==_refl, eq_nat, ok, err,
  List, [], ◌∷◌, ◌++◌,
}
use mathlib.Core.List.{append-nil, append_assoc}
use mite.Text.{Str, eq_str}
use mite.Domain.Errors.{Res}
use mite.Domain.Enums.{GuideDraftStatus, eq_guide_generation_job_status, eq_support_session_status}
use mite.Domain.Value.{DomainId}
use mite.Domain.Guide.{GuideGenerationJob, GuideDraft, GeneratedGuide, number_steps}
use mite.Domain.Support.{Time}
use mite.Repository.{Db, Query, go_on}
use mite.Repository.Generation.{GenerationContext, draft_row, add_draft, create_draft}
use mite.Service.Generation.{create_drafts, new_draft}

-- The drafts of some outputs in their order, numbered from `n`.
abbrev pub AreDrafts : DomainId → ℕ → List GeneratedGuide → List GuideDraft → Type 0
AreDrafts session_id n [] [] = Unit
AreDrafts session_id n [] (draft ∷ drafts) = ⊥
AreDrafts session_id n (output ∷ outputs) [] = ⊥
AreDrafts session_id n (output ∷ outputs) (draft ∷ drafts) =
    (draft.support_session_id ≡ session_id)
    × (draft.position ≡ n)
    × (draft.title ≡ output.title)
    × (draft.steps ≡ number_steps 0 output.steps)
    × (draft.status ≡ GuideDraftStatus.editing)
    × (draft.revision ≡ 1)
    × AreDrafts session_id (n + 1) outputs drafts

module _ (refuses : Query → Bool) (now later : Time) (fresh : Str → ℕ → DomainId)
    (claimed : GuideGenerationJob) (context : GenerationContext) where
  abbrev pub Added : DomainId → ℕ → List GeneratedGuide → Db → Res (List GuideDraft) × Db → Type 0
  Added session_id n outputs db (err e, db') = Unit
  Added session_id n outputs db (ok drafts, db') =
      (db' ≡ record db { drafts = db'.drafts })
      × (db'.jobs ≡ db.jobs)
      × (db'.sessions ≡ db.sessions)
      × (db'.drafts session_id ≡ db.drafts session_id ++ drafts)
      × AreDrafts session_id n outputs drafts

  abbrev pub stored_draft : DomainId → ℕ → GeneratedGuide → GuideDraft
  stored_draft session_id index output =
      draft_row (new_draft refuses now later fresh claimed context session_id index output)

  pub create_drafts-Added :
      (session_id : DomainId) (index : ℕ) (outputs : List GeneratedGuide) (db : Db)
      → Added session_id
          (index + 1)
          outputs
          db
          (create_drafts refuses now later fresh claimed context session_id index outputs db)
  unfolding create_drafts create_draft
  create_drafts-Added session_id index [] db = (refl, refl, refl, sym (append-nil _), tt)
  create_drafts-Added session_id index (output ∷ outputs) db =
      elim (Bool-cases (refuses Query.create_draft)) [
        | inl a ↦ rw a tt
        | inr a ↦
            let d = add_draft (stored_draft session_id index output) db in
            rw a (
              then_added
                (create_drafts refuses now later fresh claimed context session_id (index + 1)
                  outputs d)
                (create_drafts-Added session_id (index + 1) outputs d))
      ]
    where
      first :
          (add_draft (stored_draft session_id index output) db).drafts session_id
          ≡ db.drafts session_id ++ stored_draft session_id index output ∷ []
      first = rw (==_refl session_id) refl

      numbered : (stored_draft session_id index output).position ≡ index + 1
      numbered = ground arith

      then_added :
          (x : Res (List GuideDraft) × Db)
          → Added session_id
              (index + 1 + 1)
              outputs
              (add_draft (stored_draft session_id index output) db)
              x
          → Added session_id
              (index + 1)
              (output ∷ outputs)
              db
              (go_on x λ drafts d. (ok (stored_draft session_id index output ∷ drafts), d))
      then_added (err e, d) h = tt
      then_added (ok drafts, d) (rest, jobs, sessions, added, are) = (
        rest,
        jobs,
        sessions,
        added
            ∙ ap (λ before. before ++ drafts) first
            ∙ append_assoc (db.drafts session_id) (stored_draft session_id index output ∷ [])
                drafts,
        (refl, numbered, refl, refl, refl, refl, are),
      )
