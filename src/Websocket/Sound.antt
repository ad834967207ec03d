-- ===== src/Websocket/Sound.antt =====
-- What holds of the sockets, the connections and the publishers of server/internal/websocket/hub.go
-- at all times.
use mathlib.Core.Option
use mite.Prelude.{
  ℕ, zero, suc, ◌≡◌, refl, ◌∙◌, sym, ap, true, none, some, Option, ◌⊎◌, inl, inr, List, [], ◌∷◌,
  ◌++◌, write, write-cases, Bool-cases, ◌==◌, eq_nat, eq_of_==,
}
use mite.Domain.User.{Actor, pair_contains}
use mite.Domain.Event.{Event}
use mite.Websocket.{
  Hub, next_target, Connection, Socket, Phase, Message, authenticated, published, Publisher, remove,
  targets_of, take_turn,
}

-- Events of which the actor is in the audience.
abbrev pub AreFor : Actor → List Message → Type 0
AreFor actor [] = Unit
AreFor actor (authenticated ∷ messages) = ⊥
AreFor actor (published e ∷ messages) =
    (pair_contains e.audience actor ≡ true) × AreFor actor messages

-- First that the actor is authenticated, then such events.
abbrev pub IsGreeted : Socket → Type 0
IsGreeted s = (rest : List Message) × (s.log ≡ authenticated ∷ rest) × AreFor s.actor rest

abbrev pub Fits : Phase → Socket → Type 0
Fits Phase.opening s = s.log ≡ []
Fits Phase.ready s = IsGreeted s
Fits Phase.shut s = (s.log ≡ []) ⊎ IsGreeted s

abbrev pub Sockets : Type 0
Sockets = ℕ → Option Socket

-- A connection that is handled has a socket with its actor.
abbrev pub IsKnown : Sockets → Connection → Type 0
IsKnown t c = (s : Socket) × (t c.key ≡ some s) × (s.actor ≡ c.actor)

abbrev pub AreKnown : Sockets → List Connection → Type 0
AreKnown t [] = Unit
AreKnown t (c ∷ cs) = IsKnown t c × AreKnown t cs

abbrev pub AreTargets : Sockets → Event → List Connection → Type 0
AreTargets t e [] = Unit
AreTargets t e (c ∷ cs) =
    IsKnown t c × (pair_contains e.audience c.actor ≡ true) × AreTargets t e cs

abbrev pub AreServing : Sockets → List Publisher → Type 0
AreServing t [] = Unit
AreServing t (p ∷ ps) = AreTargets t p.event p.targets × AreServing t ps

abbrev pub AreSound : Sockets → Type 0
AreSound t = (key : ℕ) (s : Socket) → t key ≡ some s → Fits s.phase s

abbrev pub IsSound : Hub → Type 0
IsSound hub =
    AreSound hub.sockets
    × AreKnown hub.sockets hub.connections
    × AreServing hub.sockets hub.publishers

abbrev pub Keeps : Sockets → Sockets → Type 0
Keeps t t' = (c : Connection) → IsKnown t c → IsKnown t' c

pub AreKnown-Keeps :
    (t t' : Sockets) → Keeps t t' → (cs : List Connection) → AreKnown t cs → AreKnown t' cs
AreKnown-Keeps t t' k [] h = tt
AreKnown-Keeps t t' k (c ∷ cs) h = (k c h.0, AreKnown-Keeps t t' k cs h.1)

pub AreTargets-Keeps :
    (t t' : Sockets)
    → Keeps t t'
    → (e : Event) (cs : List Connection) → AreTargets t e cs
    → AreTargets t' e cs
AreTargets-Keeps t t' k e [] h = tt
AreTargets-Keeps t t' k e (c ∷ cs) h = (k c h.0, h.1, AreTargets-Keeps t t' k e cs h.2)

pub AreServing-Keeps :
    (t t' : Sockets) → Keeps t t' → (ps : List Publisher) → AreServing t ps → AreServing t' ps
AreServing-Keeps t t' k [] h = tt
AreServing-Keeps t t' k (p ∷ ps) h =
    (AreTargets-Keeps t t' k p.event p.targets h.0, AreServing-Keeps t t' k ps h.1)

-- A socket may change as long as its actor stays.
pub changed-Keeps :
    (t : Sockets) (key : ℕ) (s s' : Socket)
    → t key ≡ some s
    → s'.actor ≡ s.actor
    → Keeps t (write t key (some s'))
changed-Keeps t key s s' at same c (x, h, a) = elim (Bool-cases (key == c.key)) [
  | inl p ↦ rw p (
    s',
    refl,
    same ∙ ap (λ (z : Socket). z.actor) (old (sym at ∙ ap t (eq_of_== key c.key p) ∙ h)) ∙ a,
  )
  | inr p ↦ rw p (x, h, a)
]
  where
    old : some s ≡ some x → s ≡ x
    old e = cc

pub fresh-Keeps :
    (t : Sockets) (key : ℕ) (s : Socket) → t key ≡ none → Keeps t (write t key (some s))
fresh-Keeps t key s free c (x, h, a) = elim (Bool-cases (key == c.key)) [
  | inl p ↦ absurd (taken (sym free ∙ ap t (eq_of_== key c.key p) ∙ h))
  | inr p ↦ rw p (x, h, a)
]
  where
    taken : ◌≡◌ {A = Option Socket} none (some x) → ⊥
    taken e = cc

pub written-AreSound :
    (t : Sockets) (key : ℕ) (s : Socket)
    → AreSound t
    → Fits s.phase s
    → AreSound (write t key (some s))
written-AreSound t key s sound fit j x h = elim (write-cases t key j s x h) [
  | inl (e, q) ↦ rw q fit
  | inr (n, q) ↦ sound j x q
]

pub remove-AreKnown :
    (t : Sockets) (cs : List Connection) (key : ℕ) → AreKnown t cs → AreKnown t (remove cs key)
unfolding remove
remove-AreKnown t [] key h = tt
remove-AreKnown t (c ∷ cs) key h = elim (Bool-cases (c.key == key)) [
  | inl p ↦ rw p (remove-AreKnown t cs key h.1)
  | inr p ↦ rw p (h.0, remove-AreKnown t cs key h.1)
]

pub targets_of-AreTargets :
    (t : Sockets) (cs : List Connection) (e : Event)
    → AreKnown t cs
    → AreTargets t e (targets_of cs e)
unfolding targets_of
targets_of-AreTargets t [] e h = tt
targets_of-AreTargets t (c ∷ cs) e h = elim (Bool-cases (pair_contains e.audience c.actor)) [
  | inl p ↦ rw p (h.0, p, targets_of-AreTargets t cs e h.1)
  | inr p ↦ rw p (targets_of-AreTargets t cs e h.1)
]

pub AreServing-append :
    (t : Sockets) (ps : List Publisher) (p : Publisher)
    → AreServing t ps
    → AreTargets t p.event p.targets
    → AreServing t (ps ++ p ∷ [])
AreServing-append t [] p h g = (g, tt)
AreServing-append t (q ∷ ps) p h g = (h.0, AreServing-append t ps p h.1 g)

pub AreFor-append :
    (actor : Actor) (ms : List Message) (e : Event)
    → AreFor actor ms
    → pair_contains e.audience actor ≡ true
    → AreFor actor (ms ++ published e ∷ [])
AreFor-append actor [] e h p = (p, tt)
AreFor-append actor (authenticated ∷ ms) e h p = elim h [ ]
AreFor-append actor (published x ∷ ms) e h p = (h.0, AreFor-append actor ms e h.1 p)

-- What a turn takes is a target, and what is left still serves.
abbrev pub TakesTurn : Sockets → Option (Event × Connection × List Publisher) → Type 0
TakesTurn t none = Unit
TakesTurn t (some (e, c, ps)) =
    IsKnown t c × (pair_contains e.audience c.actor ≡ true) × AreServing t ps

pub next_target-TakesTurn :
    (t : Sockets) (e : Event) (cs : List Connection) (ps : List Publisher)
    → AreTargets t e cs
    → AreServing t ps
    → TakesTurn t (next_target e cs ps)
unfolding next_target
next_target-TakesTurn t e [] ps h g = tt
next_target-TakesTurn t e (c ∷ cs) ps h g = (h.0, h.1, (h.2, g))

pub waiting-TakesTurn :
    (t : Sockets) (p : Publisher) (o : Option (Event × Connection × List Publisher))
    → AreTargets t p.event p.targets
    → TakesTurn t o
    → TakesTurn t (Option.map (λ (e, c, qs). (e, c, p ∷ qs)) o)
waiting-TakesTurn t p none h g = tt
waiting-TakesTurn t p (some (e, c, ps)) h g = (g.0, g.1, (h, g.2))

pub take_turn-TakesTurn :
    (t : Sockets) (n : ℕ) (ps : List Publisher) → AreServing t ps → TakesTurn t (take_turn n ps)
unfolding take_turn
take_turn-TakesTurn t n [] h = tt
take_turn-TakesTurn t zero (p ∷ ps) h = next_target-TakesTurn t p.event p.targets ps h.0 h.1
take_turn-TakesTurn t (suc n) (p ∷ ps) h =
    waiting-TakesTurn t p (take_turn n ps) h.0 (take_turn-TakesTurn t n ps h.1)
