-- ===== src/Queue/Tests.antt =====
-- Two values through a queue.
use treeipc.Base.{ℕ, ◌≡◌, refl, [], ◌∷◌, some}
use treeipc.Queue.{push, push_front, pop}
use treeipc.Queue.Fifo.{Run, done, pushes, pops}

two_pushed : pop {A = ℕ} (push (push [] 5) 6) ≡ some (5, 6 ∷ [])
unfolding push pop
two_pushed = refl

pushed_front : pop {A = ℕ} (push_front (6 ∷ []) 5) ≡ some (5, 6 ∷ [])
unfolding push_front pop
pushed_front = refl

one_left : Run {A = ℕ} [] (5 ∷ 6 ∷ []) (5 ∷ []) (6 ∷ [])
unfolding push pop
one_left = pushes 5 (pushes 6 (pops 5 refl (done (6 ∷ []))))
