-- ===== src/Websocket.antt =====
-- server/internal/websocket/hub.go: who is connected, and which events they are sent. The goroutines
-- of the hub run as interleaved actions, each of which is a section of the code that no other
-- goroutine can tell apart: the frames, the JSON and the deadlines of a socket are the library's,
-- and whether a write succeeds is an argument.
pub mod Sound
pub mod Delivery
use mathlib.Core.Option
use mite.Prelude.{
  ℕ, zero, suc, Bool, true, false, ◌||◌, not, Option, none, some, List, [], ◌∷◌, ◌++◌,
  if◌then◌else◌, write, ◌==◌, ◌!=◌, eq_nat, ok, err,
}
use mite.Text.{Str, eq_str, ascii}
use mite.Domain.Errors.{Res}
use mite.Domain.User.{Actor, pair_contains}
use mite.Domain.Event.{Event}

-- `*connection`, by the number of the socket.
pub record Connection : Type 0 where
  pub key : ℕ
  pub actor : Actor

pub data Message : Type 0 where
  authenticated : Message
  published : Event → Message

-- While `opening`, `handleConnection` holds the mutex of the connection; a `shut` socket is closed.
pub data Phase : Type 0 where
  opening ready shut : Phase

pub record Socket : Type 0 where
  pub actor : Actor
  pub phase : Phase
  pub log : List Message

-- A run of `Publish`, with the targets that it has not served.
pub record Publisher : Type 0 where
  pub event : Event
  pub targets : List Connection

pub record Hub : Type 0 where
  pub connections : List Connection
  pub sockets : ℕ → Option Socket
  pub publishers : List Publisher

allowed : List Str → Str → Bool
allowed [] origin = false
allowed (o ∷ origins) origin = o == origin || allowed origins origin

-- `handshake`: whether a connection from an origin goes on.
unfoldable pub handshake : List Str → Str → Bool
unfolding allowed
handshake allowed_origins origin = if origin == [] then false else allowed allowed_origins origin

pub record AuthenticateMessage : Type 0 where
  pub type : Str
  pub token : Str

-- The part of `handleConnection` before the connection is made: the first message, `none` if it
-- does not arrive or decode as the only document, gives the actor, or the socket is closed.
unfoldable pub admit : (Str → Res Actor) → Option AuthenticateMessage → Option Actor
admit authenticate_token none = none
admit authenticate_token (some message) =
    if message.type != ascii "authenticate" || message.token == []
    then none
    else elim (authenticate_token message.token) [ err e ↦ none | ok actor ↦ some actor ]

unfoldable pub remove : List Connection → ℕ → List Connection
remove [] key = []
remove (c ∷ cs) key = let rest = remove cs key in if c.key == key then rest else c ∷ rest

-- The loop of `Publish` that picks its targets.
unfoldable pub targets_of : List Connection → Event → List Connection
targets_of [] event = []
targets_of (c ∷ cs) event =
    let rest = targets_of cs event in
    if pair_contains event.audience c.actor then c ∷ rest else rest

-- `current.mu.Lock(); h.add(current)`, for a new socket.
unfoldable pub connect_at : Option Socket → Connection → Hub → Hub
connect_at (some s) c hub = hub
connect_at none c hub = record hub {
  connections = c ∷ hub.connections;
  sockets =
      write hub.sockets c.key (some (record { actor = c.actor; phase = Phase.opening; log = [] }));
}

-- The send of `authenticated`, up to `current.mu.Unlock()`.
unfoldable pub acknowledge_in : Phase → Socket → ℕ → Bool → Hub → Hub
acknowledge_in Phase.opening s key true hub = record hub {
  sockets =
      write hub.sockets key
        (some (record s { phase = Phase.ready; log = s.log ++ authenticated ∷ [] }));
}
acknowledge_in Phase.opening s key false hub = record hub {
  connections = remove hub.connections key;
  sockets = write hub.sockets key (some (record s { phase = Phase.shut }));
}
acknowledge_in _ s key sent hub = hub

unfoldable pub acknowledge_at : Option Socket → ℕ → Bool → Hub → Hub
unfolding acknowledge_in
acknowledge_at none key sent hub = hub
acknowledge_at (some s) key sent hub = acknowledge_in s.phase s key sent hub

unfoldable pub next_target :
    Event → List Connection → List Publisher → Option (Event × Connection × List Publisher)
next_target event [] publishers = none
next_target event (c ∷ cs) publishers =
    some (event, c, record { event = event; targets = cs } ∷ publishers)

-- The next target of the n-th publisher, and the publishers without it.
unfoldable pub take_turn : ℕ → List Publisher → Option (Event × Connection × List Publisher)
unfolding next_target
take_turn n [] = none
take_turn zero (p ∷ ps) = next_target p.event p.targets ps
take_turn (suc n) (p ∷ ps) = Option.map (λ (e, c, qs). (e, c, p ∷ qs)) (take_turn n ps)

-- `target.send(event)`, and `h.remove(target)` if it fails: it waits while the connection's mutex
-- is held, and a write to a closed socket fails.
unfoldable pub send_in : Phase → Socket → Event → Connection → List Publisher → Bool → Hub → Hub
send_in Phase.opening s event c publishers sent hub = hub
send_in Phase.ready s event c publishers true hub = record hub {
  publishers = publishers;
  sockets = write hub.sockets c.key (some (record s { log = s.log ++ published event ∷ [] }));
}
send_in _ s event c publishers sent hub = record hub {
  publishers = publishers;
  connections = remove hub.connections c.key;
}

unfoldable pub send_to : Option Socket → Event → Connection → List Publisher → Bool → Hub → Hub
unfolding send_in
send_to none event c publishers sent hub = hub
send_to (some s) event c publishers sent hub = send_in s.phase s event c publishers sent hub

unfoldable pub deliver_at : Option (Event × Connection × List Publisher) → Bool → Hub → Hub
unfolding send_to
deliver_at none sent hub = hub
deliver_at (some (event, c, publishers)) sent hub =
    send_to (hub.sockets c.key) event c publishers sent hub

-- `socket.Close()`, or the peer that goes away.
unfoldable pub close_in : Phase → Socket → ℕ → Hub → Hub
close_in Phase.ready s key hub = record hub {
  sockets = write hub.sockets key (some (record s { phase = Phase.shut }));
}
close_in _ s key hub = hub

unfoldable pub close_at : Option Socket → ℕ → Hub → Hub
unfolding close_in
close_at none key hub = hub
close_at (some s) key hub = close_in s.phase s key hub

-- What the goroutines do: `handleConnection` connects, acknowledges and leaves, a run of `Publish`
-- picks its targets and serves them one by one, and sockets are closed.
pub data Action : Type 0 where
  connects : Connection → Action
  acknowledges delivers : ℕ → Bool → Action
  publishes : Event → Action
  closes leaves : ℕ → Action

unfoldable pub step : Action → Hub → Hub
unfolding connect_at acknowledge_at deliver_at take_turn close_at remove targets_of
step (Action.connects c) hub = connect_at (hub.sockets c.key) c hub
step (Action.acknowledges key sent) hub = acknowledge_at (hub.sockets key) key sent hub
step (Action.publishes event) hub = record hub {
  publishers =
      hub.publishers ++ record { event = event; targets = targets_of hub.connections event } ∷ [];
}
step (Action.delivers n sent) hub = deliver_at (take_turn n hub.publishers) sent hub
step (Action.closes key) hub = close_at (hub.sockets key) key hub
step (Action.leaves key) hub = record hub { connections = remove hub.connections key }

-- `NewHub`.
abbrev pub new_hub : Hub
new_hub = record { connections = []; sockets = λ key. none; publishers = [] }

unfoldable pub runs : List Action → Hub → Hub
unfolding step
runs [] hub = hub
runs (a ∷ actions) hub = runs actions (step a hub)
