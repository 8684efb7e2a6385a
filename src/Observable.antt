-- ===== src/Observable.antt =====
-- observable.h, `one_to_one_observable` and its `listener`: the two pointers that tie an observable and
-- its listener together. Objects are known by numbers; an operation that locks a mutex which the same
-- thread holds already never returns, and is `none`.
pub mod Pairing
mod Tests
use treeipc.Base.{ℕ, Option, none, some, ◌==◌, if◌then◌else◌}

-- The pointer `l` of each observable, and the pointer `obs` of each listener.
pub record Links : Type 0 where
  pub listener_of : ℕ → Option ℕ
  pub observable_of : ℕ → Option ℕ

abbrev pub update : (ℕ → Option ℕ) → ℕ → Option ℕ → ℕ → Option ℕ
update f x v y = if y == x then v else f y

-- `listener::remove_observable`
unfoldable pub remove_observable : Links → ℕ → Links
remove_observable s k = record s { observable_of = update s.observable_of k none }

-- `one_to_one_observable::remove_listener`
unfoldable pub remove_listener : Links → ℕ → Links
remove_listener s o = record s { listener_of = update s.listener_of o none }

-- `obs->remove_listener()`, where the thread holds the mutex of the observable `held`, if any.
abbrev leave_observable : Links → Option ℕ → Option ℕ → Option Links
leave_observable s held none = some s
leave_observable s none (some o) = some (remove_listener s o)
leave_observable s (some h) (some o) = if o == h then none else some (remove_listener s o)

abbrev point_at : ℕ → Option ℕ → Option Links → Option Links
point_at k target none = none
point_at k target (some s) = some (record s { observable_of = update s.observable_of k target })

-- `listener::set_observable`, from a thread that holds the mutex of `held`.
unfoldable pub set_observable : Links → Option ℕ → ℕ → Option ℕ → Option Links
set_observable s held k target = point_at k target (leave_observable s held (s.observable_of k))

-- The listener that an observable had forgets it.
abbrev drop_listener : Links → Option ℕ → Links
drop_listener s none = s
drop_listener s (some old) = remove_observable s old

abbrev tell_listener : Links → ℕ → Option ℕ → Option Links
tell_listener s o none = some s
tell_listener s o (some k) = set_observable s (some o) k (some o)

-- `one_to_one_observable::set_listener`
unfoldable pub set_listener : Links → ℕ → Option ℕ → Option Links
set_listener s o l =
    let s = drop_listener s (s.listener_of o) in
    tell_listener (record s { listener_of = update s.listener_of o l }) o l

-- The destructors.
unfoldable pub delete_listener : Links → ℕ → Option Links
delete_listener s k = set_observable s none k none

unfoldable pub delete_observable : Links → ℕ → Links
delete_observable s o = drop_listener s (s.listener_of o)

-- `notify`: the listener whose `process_notification` is called.
unfoldable pub notify : Links → ℕ → Option ℕ
notify s o = s.listener_of o
