-- ===== src/FormationRepo/Notifying.antt =====
-- The notification of a change of a formation: the trigger of schema.go, and the loop of
-- startListener of formation.go, which publishes what the notification names.
use flynn_controller.Prelude.{◌≡◌, ap, List, [], ◌∷◌, ◌++◌, Text}
use flynn_controller.Strings.{split_n2}
use flynn_controller.Strings.Laws.{Lacks, split_n2-append}
use flynn_controller.Scheduler.State.{Outcome, done, panic, index_out_of_range}

-- NEW.app_id || ':' || NEW.release_id
abbrev pub payload : Text → Text → Text
payload app_id release_id = app_id ++ b':' ∷ release_id

-- ids[0] and ids[1]
abbrev pub ids_of : List Text → Outcome (Text × Text)
ids_of [] = panic index_out_of_range
ids_of (app_id ∷ []) = panic index_out_of_range
ids_of (app_id ∷ release_id ∷ more) = done (app_id, release_id)

-- strings.SplitN(n.Extra, ":", 2)
unfoldable pub notified : Text → Outcome (Text × Text)
unfolding split_n2
notified extra = ids_of (split_n2 b':' extra)

-- An identifier without a colon, as those of Postgres are, is read back from the notification,
-- and so is the other, so that startListener does not panic and publishes the changed formation.
pub notified-payload :
    (app_id release_id : Text)
    → Lacks b':' app_id
    → notified (payload app_id release_id) ≡ done (app_id, release_id)
unfolding notified
notified-payload app_id release_id h = ap ids_of (split_n2-append b':' app_id release_id h)
