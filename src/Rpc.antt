-- ===== src/Rpc.antt =====
-- rpc.go, StreamFormations: the goroutine that carries formations from the channel to the stream,
-- and the call that waits for it. Lists of formations have the newest first.
pub mod Carrying
use flynn_controller.Prelude.{◌≡◌, Bool, true, false, List, [], ◌∷◌}

-- where the goroutine stands: at the outer select, at the inner one, or behind the loop
pub data Point (A : Type 0) : Type 0 where
  selecting : Point A
  sending : A → Point A
  behind_loop : Point A

-- where the call stands: before Subscribe, at `<-done`, returned with an error, or at Unsubscribe
pub data Phase : Type 0 where
  subscribing waiting refused unsubscribing : Phase

pub record State (A : Type 0) : Type 0 where
  pub point : Point A
  pub phase : Phase
  -- done is closed
  pub done : Bool
  -- what came from the channel, what the stream took, and what an error of the stream lost
  pub taken : List A
  pub sent : List A
  pub lost : List A

abbrev pub initial : {A : Type 0} → State A
initial = record {
  point = selecting;
  phase = subscribing;
  done = false;
  taken = [];
  sent = [];
  lost = [];
}

-- where `break` leads: out of the select, to the next round of the loop
unfoldable pub after_break : {A : Type 0} → Point A
after_break = selecting

-- A step of the goroutine or of the call.
pub data Step {A : Type 0} (s : State A) : State A → Type 0 where
  take_one :
      (f : A) → s.point ≡ selecting → Step s (record s { point = sending f; taken = f ∷ s.taken })
  send_one :
      (f : A) → s.point ≡ sending f → Step s (record s { point = selecting; sent = f ∷ s.sent })
  lose_one :
      (f : A) → s.point ≡ sending f → Step s (record s { point = after_break; lost = f ∷ s.lost })
  stream_error : s.point ≡ selecting → Step s (record s { point = after_break })
  close_done : s.point ≡ behind_loop → Step s (record s { done = true })
  subscribed : s.phase ≡ subscribing → Step s (record s { phase = waiting })
  not_subscribed : s.phase ≡ subscribing → Step s (record s { phase = refused })
  finished : s.phase ≡ waiting → s.done ≡ true → Step s (record s { phase = unsubscribing })

-- the states that some interleaving reaches
pub data Reaches {A : Type 0} : State A → Type 0 where
  start : Reaches initial
  after : {s next : State A} → Reaches s → Step s next → Reaches next
