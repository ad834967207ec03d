-- ===== src/Tests/Deletion.antt =====
-- Two images that wait for their deletion.
use mite.Prelude.{
  ◌==◌, ◌+◌, ◌*◌, ◌≤◌, ◌≡◌, refl, ◌⊎◌, arith, Bool, true, false, none, some, [], ◌∷◌, ok, err,
  if◌then◌else◌, ltb,
}
use mite.Text.{Str, ascii, str_eq, eq_str}
use mite.Domain.Errors.{Res, failure}
use mite.Domain.Artifact.{ArtifactDeletionTask, ArtifactDeletionTaskStatus, deletion_status_valid}
use mite.Repository.{Db, Query, transact}
use mite.Repository.Deletions.{next_due, find_where, update_where, is_running}
use mite.Service.Deletion.{process_next, ticks, recover_tasks, deletion_retry_delay}
use mite.Service.Deletion.Queue.{has_id, IsGone, process_next-Keeps}
use mite.Service.Deletion.Delay.{deletion_retry_delay-doubles}
use mite.Service.Deletion.Drained.{drained}
use mite.Service.Deletion.Drain.{ticks-done}
use mite.Service.Deletion.Splits.{IsDistinct}
use mite.Service.Deletion.Recover.{recover_tasks-Keeps}
use mite.Tests.Sample.{waiting}

abbrev old_image : ArtifactDeletionTask
old_image = record {
  id = ascii "t";
  artifact_id = some (ascii "a");
  storage_key = ascii "k";
  status = ArtifactDeletionTaskStatus.pending;
  attempt = 3;
  next_attempt_at = 10;
  created_at = 1;
}

-- The worker was stopped while it deleted this one.
abbrev stopped_image : ArtifactDeletionTask
stopped_image = record old_image {
  id = ascii "u";
  storage_key = ascii "l";
  status = ArtifactDeletionTaskStatus.running;
}

abbrev full : Db
full = record waiting { deletions = stopped_image ∷ old_image ∷ [] }

abbrev up : Query → Bool
up query = false

-- The storage is away.
abbrev away : Str → Res (Unit {0})
away key = err failure

-- The fourth attempt fails, and the fifth is eight seconds later.
put_off_again :
    (process_next up up up away 20 20 full).1.deletions
    ≡ stopped_image ∷ record old_image { attempt = 4; next_attempt_at = 8000000020 } ∷ []
unfolding process_next next_due str_eq transact deletion_status_valid deletion_retry_delay
    find_where update_where
put_off_again = refl

present : has_id (ascii "t") full.deletions ≡ true
unfolding has_id str_eq
present = refl

process_next-Keeps_example :
    (has_id (ascii "t") (process_next up up up away 20 20 full).1.deletions ≡ true)
    ⊎ IsGone away (ascii "t") full.deletions
process_next-Keeps_example = process_next-Keeps up up up away 20 20 full (ascii "t") present

deletion_retry_delay-doubles_example :
    (1000000000 ≤ deletion_retry_delay 5)
    × (deletion_retry_delay 5 ≤ 2048000000000)
    × (deletion_retry_delay (5 + 2)
        ≡ (if ltb 5 11 then 2 * deletion_retry_delay (5 + 1) else deletion_retry_delay (5 + 1)))
deletion_retry_delay-doubles_example = deletion_retry_delay-doubles 5

recovered : recover_tasks up full ≡ (ok tt, (recover_tasks up full).1)
unfolding recover_tasks transact
recovered = refl

recover_tasks-Keeps_example :
    (find_where is_running (recover_tasks up full).1.deletions ≡ none)
    × (has_id (ascii "u") (recover_tasks up full).1.deletions ≡ has_id (ascii "u") full.deletions)
recover_tasks-Keeps_example =
    recover_tasks-Keeps up full (recover_tasks up full).1 (ascii "u") recovered

-- A storage that has lost the object of one key only.
abbrev loses : Str → Res (Unit {0})
loses key = if key == ascii "m" then err failure else ok tt

abbrev lost_image : ArtifactDeletionTask
lost_image = record old_image { id = ascii "v"; storage_key = ascii "m" }

abbrev loaded : Db
loaded = record waiting { deletions = stopped_image ∷ old_image ∷ lost_image ∷ [] }

loaded-IsDistinct : IsDistinct loaded.deletions
unfolding has_id str_eq
loaded-IsDistinct = (refl, (refl, (refl, tt)))

-- One task stays, one is done, and one waits.
loaded_drained :
    drained loses 20 20 loaded.deletions
    ≡ stopped_image ∷ record lost_image { attempt = 4; next_attempt_at = 8000000020 } ∷ []
unfolding drained deletion_retry_delay str_eq
loaded_drained = refl

ticks-done_example :
    ((ticks up up up loses 20 20 3 loaded).deletions ≡ drained loses 20 20 loaded.deletions)
    × (next_due 20 (ticks up up up loses 20 20 3 loaded).deletions ≡ none)
ticks-done_example =
    ticks-done up loses 20 20 (λ query. refl) 3 loaded (omega arith) loaded-IsDistinct (omega arith)
