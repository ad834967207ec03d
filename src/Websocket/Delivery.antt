-- ===== src/Websocket/Delivery.antt =====
-- What the sockets of server/internal/websocket/hub.go are sent, whatever the goroutines interleave.
use mathlib.Core.Path.{subst}
use mite.Prelude.{
  ℕ, ◌≡◌, refl, ◌∙◌, sym, ap, Bool, true, false, none, some, Option, inl, inr, List, [], ◌∷◌, ◌++◌,
  write, write_self, eq_nat,
}
use mite.Domain.User.{pair_contains}
use mite.Domain.Event.{Event}
use mite.Websocket.{
  Hub, Action, acknowledge_in, send_in, close_in, Connection, Socket, Phase, Message, authenticated,
  published, Publisher, runs, step, remove, targets_of, connect_at, acknowledge_at, take_turn,
  send_to, deliver_at, close_at, new_hub,
}
use mite.Websocket.Sound.{
  IsGreeted, Fits, Sockets, AreKnown, AreServing, AreSound, IsSound, AreKnown-Keeps,
  AreServing-Keeps, changed-Keeps, fresh-Keeps, written-AreSound, remove-AreKnown,
  targets_of-AreTargets, AreServing-append, AreFor-append, TakesTurn, take_turn-TakesTurn,
}

-- A socket of an actor that stays is written.
rewritten-IsSound :
    (connections : List Connection) (t : Sockets) (publishers : List Publisher) (key : ℕ)
    (s s' : Socket)
    → AreSound t
    → AreKnown t connections
    → AreServing t publishers
    → t key ≡ some s
    → s'.actor ≡ s.actor
    → Fits s'.phase s'
    → IsSound (record {
      connections = connections;
      sockets = write t key (some s');
      publishers = publishers;
    })
rewritten-IsSound connections t publishers key s s' sound known serving at same fit =
    let keeps = changed-Keeps t key s s' at same in
    (
      written-AreSound t key s' sound fit,
      AreKnown-Keeps t (write t key (some s')) keeps connections known,
      AreServing-Keeps t (write t key (some s')) keeps publishers serving,
    )

connect_at-IsSound :
    (o : Option Socket) (c : Connection) (hub : Hub)
    → IsSound hub
    → hub.sockets c.key ≡ o
    → IsSound (connect_at o c hub)
unfolding connect_at
connect_at-IsSound (some s) c hub h at = h
connect_at-IsSound none c hub h at =
    let s : Socket = record { actor = c.actor; phase = Phase.opening; log = [] } in
    let keeps = fresh-Keeps hub.sockets c.key s at in
    let t = write hub.sockets c.key (some s) in
    (
      written-AreSound hub.sockets c.key s h.0 refl,
      (
        (s, write_self hub.sockets c.key (some s), refl),
        AreKnown-Keeps hub.sockets t keeps hub.connections h.1,
      ),
      AreServing-Keeps hub.sockets t keeps hub.publishers h.2,
    )

acknowledge_in-IsSound :
    (ph : Phase) (s : Socket) (key : ℕ) (sent : Bool) (hub : Hub)
    → IsSound hub
    → hub.sockets key ≡ some s
    → s.phase ≡ ph
    → IsSound (acknowledge_in ph s key sent hub)
unfolding acknowledge_in
acknowledge_in-IsSound Phase.opening s key true hub h at e =
    rewritten-IsSound hub.connections hub.sockets hub.publishers key s
      (record s { phase = Phase.ready; log = s.log ++ authenticated ∷ [] }) h.0 h.1 h.2 at refl
      (
        [],
        ap (λ (l : List Message). l ++ authenticated ∷ []) (subst (λ p. Fits p s) e (h.0 key s at)),
        tt,
      )
acknowledge_in-IsSound Phase.opening s key false hub h at e =
    rewritten-IsSound (remove hub.connections key) hub.sockets hub.publishers key s
      (record s { phase = Phase.shut }) h.0 (remove-AreKnown hub.sockets hub.connections key h.1)
      h.2 at refl (inl (subst (λ p. Fits p s) e (h.0 key s at)))
acknowledge_in-IsSound Phase.ready s key sent hub h at e = h
acknowledge_in-IsSound Phase.shut s key sent hub h at e = h

acknowledge_at-IsSound :
    (o : Option Socket) (key : ℕ) (sent : Bool) (hub : Hub)
    → IsSound hub
    → hub.sockets key ≡ o
    → IsSound (acknowledge_at o key sent hub)
unfolding acknowledge_at
acknowledge_at-IsSound none key sent hub h at = h
acknowledge_at-IsSound (some s) key sent hub h at =
    acknowledge_in-IsSound s.phase s key sent hub h at refl

IsGreeted-append :
    (s : Socket) (e : Event)
    → IsGreeted s
    → pair_contains e.audience s.actor ≡ true
    → IsGreeted (record s { log = s.log ++ published e ∷ [] })
IsGreeted-append s e (rest, p, f) for = (
  rest ++ published e ∷ [],
  ap (λ (l : List Message). l ++ published e ∷ []) p,
  AreFor-append s.actor rest e f for,
)

send_in-IsSound :
    (ph : Phase) (s : Socket) (e : Event) (c : Connection) (ps : List Publisher) (sent : Bool)
    (hub : Hub)
    → IsSound hub
    → hub.sockets c.key ≡ some s
    → s.phase ≡ ph
    → pair_contains e.audience s.actor ≡ true
    → AreServing hub.sockets ps
    → IsSound (send_in ph s e c ps sent hub)
unfolding send_in
send_in-IsSound Phase.opening s e c ps sent hub h at q for serving = h
send_in-IsSound Phase.ready s e c ps true hub h at q for serving =
    let s' = record s { log = s.log ++ published e ∷ [] } in
    rewritten-IsSound hub.connections hub.sockets ps c.key s s' h.0 h.1 serving at refl (
      subst (λ p. Fits p s') (sym q)
        (IsGreeted-append s e (subst (λ p. Fits p s) q (h.0 c.key s at)) for))
send_in-IsSound Phase.ready s e c ps false hub h at q for serving =
    (h.0, remove-AreKnown hub.sockets hub.connections c.key h.1, serving)
send_in-IsSound Phase.shut s e c ps sent hub h at q for serving =
    (h.0, remove-AreKnown hub.sockets hub.connections c.key h.1, serving)

send_to-IsSound :
    (o : Option Socket) (e : Event) (c : Connection) (ps : List Publisher) (sent : Bool) (hub : Hub)
    → IsSound hub
    → hub.sockets c.key ≡ o
    → TakesTurn hub.sockets (some (e, c, ps))
    → IsSound (send_to o e c ps sent hub)
unfolding send_to
send_to-IsSound none e c ps sent hub h at turn = h
send_to-IsSound (some s) e c ps sent hub h at ((x, k, a), for, serving) =
    send_in-IsSound s.phase s e c ps sent hub h at refl
      (subst (λ z. pair_contains e.audience z ≡ true) (sym a ∙ own (sym k ∙ at)) for) serving
  where
    own : some x ≡ some s → x.actor ≡ s.actor
    own p = cc

deliver_at-IsSound :
    (o : Option (Event × Connection × List Publisher)) (sent : Bool) (hub : Hub)
    → IsSound hub
    → TakesTurn hub.sockets o
    → IsSound (deliver_at o sent hub)
unfolding deliver_at
deliver_at-IsSound none sent hub h turn = h
deliver_at-IsSound (some (e, c, ps)) sent hub h turn =
    send_to-IsSound (hub.sockets c.key) e c ps sent hub h refl turn

close_in-IsSound :
    (ph : Phase) (s : Socket) (key : ℕ) (hub : Hub)
    → IsSound hub
    → hub.sockets key ≡ some s
    → s.phase ≡ ph
    → IsSound (close_in ph s key hub)
unfolding close_in
close_in-IsSound Phase.opening s key hub h at e = h
close_in-IsSound Phase.ready s key hub h at e =
    rewritten-IsSound hub.connections hub.sockets hub.publishers key s
      (record s { phase = Phase.shut }) h.0 h.1 h.2 at refl
      (inr (subst (λ p. Fits p s) e (h.0 key s at)))
close_in-IsSound Phase.shut s key hub h at e = h

close_at-IsSound :
    (o : Option Socket) (key : ℕ) (hub : Hub)
    → IsSound hub
    → hub.sockets key ≡ o
    → IsSound (close_at o key hub)
unfolding close_at
close_at-IsSound none key hub h at = h
close_at-IsSound (some s) key hub h at = close_in-IsSound s.phase s key hub h at refl

step-IsSound : (a : Action) (hub : Hub) → IsSound hub → IsSound (step a hub)
unfolding step
step-IsSound (Action.connects c) hub h = connect_at-IsSound (hub.sockets c.key) c hub h refl
step-IsSound (Action.acknowledges key sent) hub h =
    acknowledge_at-IsSound (hub.sockets key) key sent hub h refl
step-IsSound (Action.publishes e) hub h = (
  h.0,
  h.1,
  AreServing-append hub.sockets hub.publishers
      (record { event = e; targets = targets_of hub.connections e }) h.2
      (targets_of-AreTargets hub.sockets hub.connections e h.1),
)
step-IsSound (Action.delivers n sent) hub h =
    deliver_at-IsSound (take_turn n hub.publishers) sent hub h
      (take_turn-TakesTurn hub.sockets n hub.publishers h.2)
step-IsSound (Action.closes key) hub h = close_at-IsSound (hub.sockets key) key hub h refl
step-IsSound (Action.leaves key) hub h =
    (h.0, remove-AreKnown hub.sockets hub.connections key h.1, h.2)

runs-IsSound : (actions : List Action) (hub : Hub) → IsSound hub → IsSound (runs actions hub)
unfolding runs
runs-IsSound [] hub h = h
runs-IsSound (a ∷ actions) hub h = runs-IsSound actions (step a hub) (step-IsSound a hub h)

-- However the goroutines of a new hub interleave, every socket has been sent one of these: nothing,
-- while it is opening; first that it is authenticated and then only events whose audience has its
-- actor, once it is ready; and either of the two when it is shut.
pub runs-Fits :
    (actions : List Action) (key : ℕ) (s : Socket)
    → (runs actions new_hub).sockets key ≡ some s
    → Fits s.phase s
runs-Fits actions key s at = (runs-IsSound actions new_hub (λ k x e. cc, tt, tt)).0 key s at
