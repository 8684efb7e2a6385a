-- ===== src/Queue/Fifo.antt =====
-- Threads that push and threads that pop, interleaved in any way.
use treeipc.Base.{◌≡◌, sym, ap, ◌∙◌, List, [], ◌∷◌, ◌++◌, some, append_assoc, append-nil, arith}
use treeipc.Queue.{push, pop}

-- From a queue to a queue, the values pushed and the values popped on the way, in order.
pub data Run {A : Type 0} : List A → List A → List A → List A → Type 0 where
  done : (q : List A) → Run q [] [] q
  pushes :
      {q q' ins outs : List A}
      → (value : A) → Run (push q value) ins outs q'
      → Run q (value ∷ ins) outs q'
  pops :
      {q r q' ins outs : List A}
      → (value : A) → pop q ≡ some (value, r)
      → Run r ins outs q'
      → Run q ins (value ∷ outs) q'

pop-cons : {A : Type 0} (q r : List A) (value : A) → pop q ≡ some (value, r) → q ≡ value ∷ r
unfolding pop
pop-cons [] r value e = cc
pop-cons (x ∷ q) r value e = ground arith

-- What is popped, with what the queue holds in the end behind it, is what it held at first with what
-- is pushed behind it: nothing is lost, made up or reordered.
pub Run-fifo : {A : Type 0} {q q' ins outs : List A} → Run q ins outs q' → outs ++ q' ≡ q ++ ins
unfolding push
Run-fifo (done q) = sym (append-nil q)
Run-fifo (pushes {q = q} {ins = ins} value r) = Run-fifo r ∙ append_assoc q (value ∷ []) ins
Run-fifo (pops {q = q} {r = r} {ins = ins} value e more) =
    ap (◌∷◌ value) (Run-fifo more) ∙ ap (λ l. l ++ ins) (sym (pop-cons q r value e))
