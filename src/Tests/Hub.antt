-- ===== src/Tests/Hub.antt =====
-- Two people at the hub, run.
use mite.Prelude.{◌≡◌, refl, true, false, some, List, [], ◌∷◌}
use mite.Text.{ascii, str_eq}
use mite.Domain.Event.{Event, support_session_updated, session_data}
use mite.Domain.User.{pair_contains}
use mite.Service.Snapshot.{session_snapshot}
use mite.Service.Session.Common.{session_pair}
use mite.Websocket.{Action, Socket, Phase, authenticated, published, runs, new_hub}
use mite.Websocket.Sound.{Fits}
use mite.Websocket.Delivery.{runs-Fits}
use mite.Tests.Sample.{grandmother, daughter, session}

abbrev told : Event
told = record {
  event_id = ascii "e";
  type = support_session_updated;
  occurred_at = 100;
  entity_id = session.id;
  revision = 1;
  content = session_data (session_snapshot session);
  audience = session_pair session;
}

-- The event is published while the second connection is not acknowledged yet: its delivery waits.
abbrev actions : List Action
actions =
    Action.connects (record { key = 1; actor = grandmother })
    ∷ Action.acknowledges 1 true
    ∷ Action.connects (record { key = 2; actor = daughter })
    ∷ Action.publishes told
    ∷ Action.delivers 0 true
    ∷ Action.acknowledges 2 true
    ∷ Action.delivers 0 true
    ∷ Action.delivers 0 false
    ∷ []

abbrev second : Socket
second = record { actor = daughter; phase = Phase.ready; log = authenticated ∷ published told ∷ [] }

delivered : (runs actions new_hub).sockets 2 ≡ some second
unfolding runs pair_contains str_eq
delivered = refl

-- The write to the first one failed, so it is not connected any more.
dropped : (runs actions new_hub).connections ≡ record { key = 2; actor = daughter } ∷ []
unfolding runs pair_contains str_eq
dropped = refl

runs-Fits_example : Fits Phase.ready second
runs-Fits_example = runs-Fits actions 2 second delivered
