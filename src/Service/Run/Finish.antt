-- ===== src/Service/Run/Finish.antt =====
-- `CompleteGuideRun` and `CancelGuideRun` of server/internal/service/guides.go, with their stored
-- answers.
use mathlib.Core.Path.{subst}
use mite.Prelude.{ℕ, refl, sym, inl, inr, Bool, Bool-cases, Result-cases, ltb}
use mite.Text.{Str}
use mite.Json.{run_body}
use mite.Domain.Enums.{Role}
use mite.Domain.Value.{DomainId}
use mite.Domain.Support.{Time}
use mite.Repository.{Db, Query}
use mite.Repository.Keys.Only.{OnlyKeys}
use mite.Service.Env.{Payload, revision_payload}
use mite.Service.Stored.{CommandMeta}
use mite.Service.Stored.Keeps.{idempotent-Keeps}
use mite.Service.Run.{finish_work, finish_guide_run, finish_path, run_of_body, validate_actor_role}
use mite.Service.Run.Inside.{AreInside, Follows, finish_work-Keeps}

module _ (refuses : Query → Bool) (digest : Payload → Str) (begun now later : Time)
    (event_id : DomainId) (meta : CommandMeta) (id : DomainId) (expected : ℕ) (cancel : Bool)
    (db : Db) where
  abbrev Kept : Db → Type 0
  Kept d = AreInside d × ((j : DomainId) → Follows meta.actor id expected db d j)

  Kept-blind : (d d' : Db) → OnlyKeys d d' → Kept d → Kept d'
  Kept-blind d d' (keys, e) kept = subst Kept (sym e) kept

  -- If every run of the table is inside its guide, this is so after `CompleteGuideRun` or
  -- `CancelGuideRun`, however it ends, also with a stored error or an earlier answer; a row is as
  -- before, or it is the one that is ended, which its owner read at the expected revision.
  pub finish_guide_run-Keeps :
      AreInside db
      → AreInside
          (finish_guide_run refuses digest begun now later event_id meta id expected cancel db).1
        × ((j : DomainId)
            → Follows meta.actor id expected db
                (finish_guide_run refuses digest begun now later event_id meta id expected cancel
                  db).1
                j)
  unfolding finish_guide_run
  finish_guide_run-Keeps inside = elim (Result-cases (validate_actor_role meta.actor Role.user)) [
    | inl (e, v) ↦ rw (finish_guide_run, v) (inside, λ j. inl refl)
    | inr (_, v) ↦ elim (Bool-cases (ltb expected 1)) [
      | inl low ↦ rw (finish_guide_run, v, low) (inside, λ j. inl refl)
      | inr valid ↦
          rw (finish_guide_run, v, valid)
            (idempotent-Keeps run_body run_of_body refuses begun Kept Kept-blind
              (finish_work refuses now later event_id meta.actor id expected cancel) db
              (inside, λ j. inl refl)
              (λ keys.
                finish_work-Keeps refuses now later event_id meta.actor id expected cancel
                  (record db { keys = keys }) inside)
              meta (finish_path id cancel) (digest (revision_payload expected)) 200)
    ]
  ]
