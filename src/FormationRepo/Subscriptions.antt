-- ===== src/FormationRepo/Subscriptions.antt =====
-- formation.go, Subscribe, Unsubscribe and startListener: the subscribed channels and the one
-- goroutine that listens to Postgres for all of them. A channel is a number. What the lock
-- `subMtx` guards is one step; startListener runs after Subscribe has given up the lock, and the
-- send to `stopListener` waits, with the lock held, until a listener takes it.
pub mod OneListener
use flynn_controller.Prelude.{
  ℕ, suc, zero, ◌+◌, ◌≡◌, ◌≢◌, none, Bool, true, false, List, [], ◌∷◌, nat_eq, nat_eqb, ◌==◌,
  if◌then◌else◌,
}
use flynn_controller.Prelude.Map
use flynn_controller.Prelude.Map.{Map}

pub record Hub : Type 0 where
  pub subscriptions : Map ℕ (Unit {0})
  -- calls of Subscribe that are to start the listener and have not done it
  pub starting : ℕ
  -- goroutines of startListener that run
  pub listeners : ℕ
  -- Unsubscribe holds the lock and sends to stopListener
  pub stopping : Bool

-- NewFormationRepo
abbrev pub empty_hub : Hub
empty_hub = record { subscriptions = []; starting = 0; listeners = 0; stopping = false }

-- len(r.subscriptions) == 0
abbrev pub is_empty : Map ℕ (Unit {0}) → Bool
is_empty [] = true
is_empty (s ∷ subscriptions) = false

-- Subscribe, while it holds the lock
unfoldable pub register : ℕ → Hub → Hub
unfolding Map.put
register ch hub = record hub {
  subscriptions = Map.put ch tt hub.subscriptions;
  starting = if is_empty hub.subscriptions then hub.starting + 1 else hub.starting;
}

-- Unsubscribe, up to the send
unfoldable pub unregister : ℕ → Hub → Hub
unfolding Map.delete
unregister ch hub =
    let rest = Map.delete ch hub.subscriptions in
    record hub { subscriptions = rest; stopping = is_empty rest }

-- A step of some goroutine; `fails` says whether listening to Postgres may fail.
pub data Step (fails : Bool) (hub : Hub) : Hub → Type 0 where
  subscribe : (ch : ℕ) → hub.stopping ≡ false → Step fails hub (register ch hub)
  -- startListener returns without an error
  listen :
      (n : ℕ)
      → hub.starting ≡ suc n
      → Step fails hub (record hub { starting = n; listeners = suc hub.listeners })
  -- startListener returns an error, and Subscribe returns it
  give_up :
      (n : ℕ) → fails ≡ true → hub.starting ≡ suc n → Step fails hub (record hub { starting = n })
  -- of a channel that is subscribed
  unsubscribe :
      (ch : ℕ)
      → hub.stopping ≡ false
      → Map.get ch hub.subscriptions ≢ none
      → Step fails hub (unregister ch hub)
  -- a listener takes the message and ends, and Unsubscribe returns
  stop :
      (n : ℕ)
      → hub.stopping ≡ true
      → hub.listeners ≡ suc n
      → Step fails hub (record hub { listeners = n; stopping = false })

-- the states that some interleaving reaches
pub data Reaches (fails : Bool) : Hub → Type 0 where
  start : Reaches fails empty_hub
  after : {hub next : Hub} → Reaches fails hub → Step fails hub next → Reaches fails next
