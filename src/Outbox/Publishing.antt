-- ===== src/Outbox/Publishing.antt =====
-- outbox.go: the in-memory broker, which ignores the events that it has seen.
use Prim.Native.String.{String}
use go_examples.Base.{ℕ, ◌+◌, Bool, false, List, [], ◌∷◌, ◌++◌, ◌==◌, ◌||◌, if◌then◌else◌}
use go_examples.Outbox.Sql.{Event, Payload}

-- The keys of the map `seen`.
abbrev pub member : ℕ → List ℕ → Bool
member i [] = false
member i (j ∷ js) = i == j || member i js

-- `delivered` holds "topic payload" texts, here pairs.
pub record Broker : Type 0 where
  pub seen : List ℕ
  pub delivered : List (String × Payload)
  pub dupes : ℕ

abbrev pub new_broker : Broker
new_broker = record { seen = []; delivered = []; dupes = 0 }

unfoldable pub publish : Event → Broker → Broker
publish e b =
    if member e.id b.seen
    then record b { dupes = b.dupes + 1 }
    else record b { seen = e.id ∷ b.seen; delivered = b.delivered ++ (e.topic, e.payload) ∷ [] }
