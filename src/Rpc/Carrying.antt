-- ===== src/Rpc/Carrying.antt =====
-- What StreamFormations carries, and that it does not end.
use flynn_controller.Prelude.{◌≡◌, ◌≢◌, refl, sym, subst, false, List, [], ◌∷◌, arith}
use flynn_controller.Rpc.{
  Point, selecting, sending, behind_loop, unsubscribing, State, after_break, Step, take_one,
  send_one, lose_one, stream_error, close_done, subscribed, not_subscribed, finished, Reaches,
  start, after,
}

-- The first list is made of the two others, each in its order.
pub data IsMerge {A : Type 0} : List A → List A → List A → Type 0 where
  none_left : IsMerge [] [] []
  from_first : (f : A) {l s t : List A} → IsMerge l s t → IsMerge (f ∷ l) (f ∷ s) t
  from_second : (f : A) {l s t : List A} → IsMerge l s t → IsMerge (f ∷ l) s (f ∷ t)

-- What came from the channel was sent or lost, but for the one that is being sent.
abbrev pub IsCarried : {A : Type 0} → Point A → List A → List A → List A → Type 0
IsCarried selecting taken sent lost = IsMerge taken sent lost
IsCarried {A} (sending f) taken sent lost =
    (rest : List A) × (taken ≡ f ∷ rest) × IsMerge rest sent lost
IsCarried behind_loop taken sent lost = ⊥

abbrev IsRunning : {A : Type 0} → State A → Type 0
IsRunning s = IsCarried s.point s.taken s.sent s.lost × (s.done ≡ false) × (s.phase ≢ unsubscribing)

Step-IsRunning : {A : Type 0} {s next : State A} → Step s next → IsRunning s → IsRunning next
unfolding after_break
Step-IsRunning {s = s} (take_one f at) (carried, undone, stays) =
    ((s.taken, refl, subst (λ p. IsCarried p s.taken s.sent s.lost) at carried), undone, stays)
Step-IsRunning {s = s} (send_one f at) (carried, undone, stays) =
    let (rest, same, merged) = subst (λ p. IsCarried p s.taken s.sent s.lost) at carried in
    (subst (λ l. IsMerge l (f ∷ s.sent) s.lost) (sym same) (from_first f merged), undone, stays)
Step-IsRunning {s = s} (lose_one f at) (carried, undone, stays) =
    let (rest, same, merged) = subst (λ p. IsCarried p s.taken s.sent s.lost) at carried in
    (subst (λ l. IsMerge l s.sent (f ∷ s.lost)) (sym same) (from_second f merged), undone, stays)
Step-IsRunning {s = s} (stream_error at) (carried, undone, stays) =
    (subst (λ p. IsCarried p s.taken s.sent s.lost) at carried, undone, stays)
Step-IsRunning {s = s} (close_done at) (carried, undone, stays) =
    absurd (subst (λ p. IsCarried p s.taken s.sent s.lost) at carried)
Step-IsRunning (subscribed at) (carried, undone, stays) = (carried, undone, (λ e. ground arith))
Step-IsRunning (not_subscribed at) (carried, undone, stays) = (carried, undone, (λ e. ground arith))
Step-IsRunning (finished at closed) (carried, undone, stays) = absurd (ground arith)

Reaches-IsRunning : {A : Type 0} {s : State A} → Reaches s → IsRunning s
Reaches-IsRunning start = (none_left, refl, (λ e. ground arith))
Reaches-IsRunning (after r step) = Step-IsRunning step (Reaches-IsRunning r)

-- However the steps interleave, what the goroutine took from the channel was sent to the stream in
-- that order, or lost to an error of the stream, but for one that is being sent; and since a break
-- leaves only its select, done is never closed and the call never gets to Unsubscribe.
pub stream_formations_lem :
    {A : Type 0} (s : State A)
    → Reaches s
    → IsCarried s.point s.taken s.sent s.lost × (s.done ≡ false) × (s.phase ≢ unsubscribing)
stream_formations_lem s r = Reaches-IsRunning r
