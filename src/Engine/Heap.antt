-- ===== src/Engine/Heap.antt =====
-- What the event queue relies on in Go's container/heap, as an interface: a heap is a list whose head
-- is the least element, and Push and Pop keep it one without losing or making up elements.
use mathlib.Core.List.{Mem, Perm}
use simulation_core.Base.{◌≡◌, Bool, false, List, [], ◌∷◌, Option, none, some}

pub record HeapOps {A : Type 0} (lt : A → A → Bool) : Type 1 where
  pub push : A → List A → List A
  pub pop : List A → Option (A × List A)
  pub IsHeap : List A → Type 0
  pub nil-IsHeap : IsHeap []
  pub push-IsHeap : (x : A) (h : List A) → IsHeap h → IsHeap (push x h)
  pub push-perm : (x : A) (h : List A) → Perm (push x h) (x ∷ h)
  pub pop-nil : pop [] ≡ none
  pub pop-cons :
      (x : A) (h : List A)
      → IsHeap (x ∷ h)
      → (rest : List A) × (pop (x ∷ h) ≡ some (x, rest)) × IsHeap rest × Perm rest h
  pub least : (x : A) (h : List A) → IsHeap (x ∷ h) → (y : A) → Mem y h → lt y x ≡ false
