-- ===== src/Tests/Rpc.antt =====
-- A stream that takes one formation, loses one to an error, and takes a third.
use flynn_controller.Prelude.{ℕ, ◌≡◌, ◌≢◌, refl, false, [], ◌∷◌}
use flynn_controller.Rpc.{
  after_break, State, selecting, waiting, unsubscribing, Reaches, start, after, take_one, send_one,
  lose_one, stream_error, subscribed,
}
use flynn_controller.Rpc.Carrying.{IsMerge, stream_formations_lem}

abbrev carried : State ℕ
carried = record {
  point = selecting;
  phase = waiting;
  done = false;
  taken = 3 ∷ 2 ∷ 1 ∷ [];
  sent = 3 ∷ 1 ∷ [];
  lost = 2 ∷ [];
}

carried-Reaches : Reaches carried
unfolding after_break
carried-Reaches =
    let first = after (after (after start (subscribed refl)) (take_one 1 refl)) (send_one 1 refl) in
    let second = after (after first (take_one 2 refl)) (lose_one 2 refl) in
    let broken = after second (stream_error refl) in
    after (after broken (take_one 3 refl)) (send_one 3 refl)

stream_formations_lem_example :
    IsMerge {A = ℕ} (3 ∷ 2 ∷ 1 ∷ []) (3 ∷ 1 ∷ []) (2 ∷ [])
    × (carried.done ≡ false)
    × (carried.phase ≢ unsubscribing)
stream_formations_lem_example = stream_formations_lem carried carried-Reaches
