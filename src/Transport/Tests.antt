-- ===== src/Transport/Tests.antt =====
-- Two writes before a slot of the Qt stream runs, and an arrival that is longer than its buffer.
use treeipc.Base.{List, none, ◌>>=◌, ◌≡◌, refl, ℕ, ◌-◌, [], ◌∷◌, ◌++◌, length, flatten, replicate}
use treeipc.Transport.Qt
use treeipc.Transport.Qt.Signals.{
  Wired, new_stream, write, run_slot, Run, wrote, Next, Run-Next, run_slot-write-write,
}
use treeipc.Transport.Qt.Signals
use treeipc.Transport.Qt.Reading.{start, arrive, left_after, start-arrive}

abbrev all_of : List ℕ → ℕ
all_of bytes = length bytes

abbrev two_written : Wired
two_written = record { stream = record { send_buffer = 1 ∷ 2 ∷ 3 ∷ []; out = [] }; waiting = 2 }

two_written_run : Run all_of (1 ∷ 2 ∷ 3 ∷ []) two_written
unfolding write Qt.write
two_written_run = wrote (2 ∷ 3 ∷ []) (wrote (1 ∷ []) Signals.start)

Run-Next_example :
    (two_written.stream.out ++ two_written.stream.send_buffer ≡ 1 ∷ 2 ∷ 3 ∷ [])
    × Next all_of (λ bytes. refl) (1 ∷ 2 ∷ 3 ∷ []) two_written
Run-Next_example = Run-Next all_of (λ bytes. refl) two_written_run

run_slot-write-write_example :
    (run_slot all_of (write (write new_stream (1 ∷ [])) (2 ∷ 3 ∷ [])) >>= run_slot all_of) ≡ none
run_slot-write-write_example = run_slot-write-write all_of new_stream (1 ∷ []) (2 ∷ 3 ∷ [])

long_waits : left_after 0 (replicate 300 5 ∷ []) ≡ 44
unfolding left_after
long_waits = refl

start-arrive_example :
    let i = arrive (start (9 ∷ [])) (replicate 300 5 ∷ []) in
    (flatten i.notified ++ i.available ≡ (9 ∷ []) ++ flatten (replicate 300 5 ∷ []))
    × (length i.available ≡ left_after (length {A = ℕ} (9 ∷ []) - 256) (replicate 300 5 ∷ []))
start-arrive_example = start-arrive (9 ∷ []) (replicate 300 5 ∷ [])
