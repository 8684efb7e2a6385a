-- ===== src/Queue.antt =====
-- locking_queue.h, `locking_queue`: a list under a mutex. Each operation holds the mutex throughout, so
-- it is one step; `pop` of an empty queue waits, and is no step.
pub mod Fifo
mod Tests
use treeipc.Base.{List, [], ◌∷◌, ◌++◌, Option, none, some}

module _ {A : Type 0} where
  unfoldable pub push : List A → A → List A
  push elements value = elements ++ (value ∷ [])

  unfoldable pub push_front : List A → A → List A
  push_front elements value = value ∷ elements

  -- The value and the queue behind it, or `none` where the thread has to wait.
  unfoldable pub pop : List A → Option (A × List A)
  pop [] = none
  pop (value ∷ elements) = some (value, elements)
