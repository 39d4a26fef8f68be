-- ===== src/Engine/Queue.antt =====
-- EventQueue of internal/engine/event.go, over container/heap.
use simulation_core.Base.{ℕ, ◌==◌, Bool, List, [], ◌∷◌, Option, none, some, length}
use simulation_core.Engine.Event.{Event, less}
use simulation_core.Engine.Heap.{HeapOps}

module _ {Payload : Type 0} where
  -- heap.Init does nothing to an empty slice.
  abbrev pub new_event_queue : List (Event Payload)
  new_event_queue = []

  abbrev pub clear : List (Event Payload) → List (Event Payload)
  clear events = []

  abbrev pub size : List (Event Payload) → ℕ
  size events = length events

  abbrev pub is_empty : List (Event Payload) → Bool
  is_empty events = size events == 0

  unfoldable pub peek : List (Event Payload) → Option (Event Payload)
  peek [] = none
  peek (event ∷ events) = some event

  module _ (heap : HeapOps (less {Payload = Payload})) where
    abbrev pub schedule : Event Payload → List (Event Payload) → List (Event Payload)
    schedule event events = heap.push event events

    unfoldable pub next : List (Event Payload) → Option (Event Payload × List (Event Payload))
    next [] = none
    next (event ∷ events) = heap.pop (event ∷ events)
