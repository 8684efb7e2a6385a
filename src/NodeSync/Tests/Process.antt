-- ===== src/NodeSync/Tests/Process.antt =====
-- A destructor that is called while the thread waits in `pop`.
use treeipc.Base.{◌≡◌, ◌⊎◌, refl, [], ◌∷◌, true, false, none}
use treeipc.Queue.{push}
use treeipc.NodeSync.Process.Shutdown.{
  Ending, new_thread, popping, ended, alive, cleared, joining, thread_step, destroy_step, Reach,
  start, works, destroys, MovesOn, Reach-MovesOn,
}

abbrev in_pop : Ending
in_pop = record { running = true; queue = []; at = popping; phase = alive }

abbrev flag_down : Ending
flag_down = record { running = false; queue = []; at = popping; phase = cleared }

abbrev woken : Ending
woken = record { running = false; queue = none ∷ []; at = popping; phase = joining }

woken-Reach : Reach woken
unfolding thread_step destroy_step push
woken-Reach =
    destroys {e = flag_down} (destroys {e = in_pop} (works {e = new_thread} start refl) refl) refl

Reach-MovesOn_example : (popping ≡ ended) ⊎ MovesOn woken
Reach-MovesOn_example = Reach-MovesOn woken-Reach refl
