-- ===== src/Tests/Subscriptions.antt =====
-- Runs of the subscriptions of formation.go.
use flynn_controller.Prelude.{if◌then◌else◌, ◌+◌, ◌≡◌, ◌⊎◌, refl, true, false, [], ◌∷◌, nat_eq}
use flynn_controller.Prelude.Map
use flynn_controller.FormationRepo.Subscriptions.{
  Hub, is_empty, register, unregister, subscribe, listen, give_up, unsubscribe, Reaches, start,
  after,
}
use flynn_controller.FormationRepo.Subscriptions.OneListener.{one_listener}

abbrev leaving : Hub
leaving = record { subscriptions = []; starting = 0; listeners = 1; stopping = true }

-- A subscriber that came and left.
left_hub : Reaches false leaving
unfolding register unregister Map.put Map.delete Map.get
left_hub =
    after (after (after start (subscribe 7 refl)) (listen 0 refl)) (unsubscribe 7 refl (λ h. cc h))

one_listener_example :
    (leaving.starting + leaving.listeners
      ≡ (if leaving.stopping then 1 else if is_empty leaving.subscriptions then 0 else 1))
    × ((leaving.stopping ≡ false) ⊎ (leaving.subscriptions ≡ []))
one_listener_example = one_listener leaving left_hub

-- When listening fails, the channel stays subscribed, and the next subscriber gets no listener.
unheard : Reaches true (record {
  subscriptions = (7, tt) ∷ (8, tt) ∷ [];
  starting = 0;
  listeners = 0;
  stopping = false;
})
unfolding register Map.put
unheard = after (after (after start (subscribe 7 refl)) (give_up 0 refl refl)) (subscribe 8 refl)
