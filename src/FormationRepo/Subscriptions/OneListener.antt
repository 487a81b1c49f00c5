-- ===== src/FormationRepo/Subscriptions/OneListener.antt =====
-- The subscribers of formation.go share one listener, whatever the interleaving.
use flynn_controller.Prelude.{
  ℕ, ◌+◌, ◌≡◌, ◌≢◌, refl, none, true, false, [], ◌∷◌, nat_eq, arith, if◌then◌else◌, Bool-cases, ◌⊎◌,
  inl, inr,
}
use flynn_controller.Prelude.Map
use flynn_controller.Prelude.Map.{Map, put-ne-nil, get-empty}
use flynn_controller.FormationRepo.Subscriptions.{
  Hub, is_empty, register, unregister, Step, subscribe, listen, give_up, unsubscribe, stop, Reaches,
  start, after,
}

-- The listeners that run or are about to start: one while there are subscribers or the last one
-- is leaving, none else; and who leaves last has left.
abbrev pub HasOne : Hub → Type 0
HasOne hub =
    (hub.starting + hub.listeners
      ≡ (if hub.stopping then 1 else if is_empty hub.subscriptions then 0 else 1))
    × (hub.stopping ≡ true → is_empty hub.subscriptions ≡ true)

is_empty-put : (ch : ℕ) (m : Map ℕ (Unit {0})) → is_empty (Map.put ch tt m) ≡ false
unfolding Map.put
is_empty-put ch [] = refl
is_empty-put ch ((k, v) ∷ m) = ground arith

not_empty : (ch : ℕ) (m : Map ℕ (Unit {0})) → Map.get ch m ≢ none → is_empty m ≡ false
not_empty ch [] h = absurd (h (get-empty ch))
not_empty ch (e ∷ m) h = refl

Step-HasOne : {hub next : Hub} → HasOne hub → Step false hub next → HasOne next
unfolding register unregister
Step-HasOne {hub} h (subscribe ch free) = (
  elim (Bool-cases (is_empty hub.subscriptions)) [
    | inl none_yet ↦ rw (none_yet, free, is_empty-put ch hub.subscriptions) (ground arith)
    | inr some_yet ↦ rw (some_yet, free, is_empty-put ch hub.subscriptions) (ground arith)
  ],
  (λ stops. absurd (ground arith)),
)
Step-HasOne {hub} h (listen n e) = (ground arith, h.1)
Step-HasOne {hub} h (give_up n fails e) = absurd (ground arith)
Step-HasOne {hub} h (unsubscribe ch free present) =
    let occupied = not_empty ch hub.subscriptions present in
    (
      elim (Bool-cases (is_empty (Map.delete ch hub.subscriptions))) [
        | inl last ↦ rw last (ground arith)
        | inr others ↦ rw others (ground arith)
      ],
      (λ e. e),
    )
Step-HasOne {hub} h (stop n stops e) =
    let left = h.1 stops in (rw left (ground arith), (λ f. absurd (ground arith)))

Reaches-HasOne : {hub : Hub} → Reaches false hub → HasOne hub
Reaches-HasOne start = (refl, (λ h. absurd (ground arith)))
Reaches-HasOne (after r s) = Step-HasOne (Reaches-HasOne r) s

-- If listening never fails, then in every state that an interleaving of subscribers reaches, the
-- listeners that run or are about to start are one in number while somebody is subscribed, or while
-- the last subscriber is leaving and waits for a listener to take its message, and none otherwise;
-- and nobody is leaving last, or nobody is subscribed.
pub one_listener :
    (hub : Hub)
    → Reaches false hub
    → (hub.starting + hub.listeners
        ≡ (if hub.stopping then 1 else if is_empty hub.subscriptions then 0 else 1))
      × ((hub.stopping ≡ false) ⊎ (hub.subscriptions ≡ []))
one_listener hub r = elim (Bool-cases hub.stopping) [
  | inl stops ↦
      ((Reaches-HasOne r).0, inr (no_entries hub.subscriptions ((Reaches-HasOne r).1 stops)))
  | inr free ↦ ((Reaches-HasOne r).0, inl free)
]
  where
    no_entries : (m : Map ℕ (Unit {0})) → is_empty m ≡ true → m ≡ []
    no_entries [] e = refl
    no_entries (x ∷ m) e = absurd (ground arith)
