-- ===== src/Registry/Interleaving/Ready.antt =====
-- A pending writer whose validation was of an earlier part of its order's history.
use streaming_system_compass.Base.{List, ◌++◌, ◌≡◌, ◌∙◌, ap}
use streaming_system_compass.Order.{OrderEvent}
use streaming_system_compass.Order.Aggregate.{fresh}
use streaming_system_compass.Order.History.{IsNext, IsHistory, final}
use streaming_system_compass.Storage.EventStore.{load}
use mathlib.Core.List.{append_assoc}
use streaming_system_compass.Registry.{World}
use streaming_system_compass.Registry.Interleaving.{Pending}

-- A pending writer is ready if its aggregate is the state of some earlier part of its order's
-- history, and its candidate continues that state.
pub record IsReady (w : World) (p : Pending) : Type 0 where
  pub seen : List OrderEvent
  pub since : List OrderEvent
  pub stored : load p.signature.order_id w.store ≡ seen ++ since
  pub was_history : IsHistory (fresh p.signature.order_id) seen
  pub rebuilt : p.aggregate ≡ final (fresh p.signature.order_id) seen
  pub continues : IsNext p.aggregate p.candidate

-- A ready writer stays ready while histories only grow.
pub IsReady-grow :
    (w w' : World) (p : Pending) (more : List OrderEvent)
    → load p.signature.order_id w'.store ≡ load p.signature.order_id w.store ++ more
    → IsReady w p
    → IsReady w' p
IsReady-grow w w' p more grown r = record {
  seen = r.seen;
  since = r.since ++ more;
  stored =
      grown ∙ ap (λ (l : List OrderEvent). l ++ more) r.stored ∙ append_assoc r.seen r.since more;
  was_history = r.was_history;
  rebuilt = r.rebuilt;
  continues = r.continues;
}
