-- ===== src/Codec/Tests.antt =====
-- Runs of the codec, and instances of the theorems about it, over the Qt stream.
use treeipc.Base.{ℕ, ◌≡◌, refl, List, [], ◌∷◌, le_bytes, le_value, true, some, arith}
use treeipc.Transport.Qt.{SocketBytestream, qt_transport}
use treeipc.Transport.Qt
use treeipc.Codec.{
  new_codec, read_size, is_waiting, consume, drain, process_notification, feed, write,
}
use treeipc.Codec.Stream.{feed_frames}

abbrev two_frames : List (List ℕ)
two_frames = (1 ∷ 2 ∷ []) ∷ (3 ∷ []) ∷ []

-- The stream of the two frames, cut inside a length and inside a frame.
abbrev cut_stream : List (List ℕ)
cut_stream = (2 ∷ 0 ∷ []) ∷ (0 ∷ 0 ∷ 1 ∷ []) ∷ (2 ∷ 1 ∷ 0 ∷ 0 ∷ 0 ∷ 3 ∷ []) ∷ []

cut_stream_runs : feed new_codec cut_stream ≡ (new_codec, two_frames)
unfolding feed process_notification drain read_size is_waiting consume le_value
cut_stream_runs = refl

feed_frames_example : feed new_codec cut_stream ≡ (new_codec, two_frames)
unfolding le_bytes
feed_frames_example = feed_frames two_frames cut_stream (omega arith) refl

abbrev fresh : SocketBytestream
fresh = record { send_buffer = []; out = [] }

abbrev after_first : SocketBytestream
after_first = record { send_buffer = 2 ∷ 0 ∷ 0 ∷ 0 ∷ 1 ∷ 2 ∷ []; out = [] }

abbrev after_second : SocketBytestream
after_second = record { send_buffer = 2 ∷ 0 ∷ 0 ∷ 0 ∷ 1 ∷ 2 ∷ 1 ∷ 0 ∷ 0 ∷ 0 ∷ 3 ∷ []; out = [] }

first_write : write qt_transport (some fresh) (1 ∷ 2 ∷ []) ≡ (some after_first, true)
unfolding write Qt.write le_bytes
first_write = refl

second_write : write qt_transport (some after_first) (3 ∷ []) ≡ (some after_second, true)
unfolding write Qt.write le_bytes
second_write = refl
