-- ===== src/Transport/Qt/Reading.antt =====
-- qt/socket_bytestream.cpp: `start`, `slot_data_ready` and the read of at most 256 bytes at a time. The
-- socket tells of new data once, when they arrive.
use treeipc.Base.{
  ℕ, suc, ◌+◌, ◌-◌, ◌≡◌, refl, sym, ap, ◌∙◌, List, [], ◌∷◌, ◌++◌, length, take, drop, flatten,
  Option, none, some, if◌then◌else◌, ltb, lt→ltb, arith, append_assoc, append-nil, take-append-drop,
  length-drop, length-append,
}
use treeipc.Transport.Qt.{process_available_data}

-- What the socket has and the stream has not read, and what the stream's listener was notified with.
pub record Incoming : Type 0 where
  pub available : List ℕ
  pub notified : List (List ℕ)

abbrev pub told : List (List ℕ) → Option (List ℕ × ℕ) → List (List ℕ)
told vs none = vs
told vs (some (bytes, size)) = vs ++ (bytes ∷ [])

-- `process_available_data`, over a socket that has no error: `sizeof(buffer)` is 256.
unfoldable pub take_available : Incoming → Incoming
take_available i = record {
  available = drop 256 i.available;
  notified = told i.notified (process_available_data (some (take 256 i.available)));
}

-- `start`, with the data that came before it.
unfoldable pub start : List ℕ → Incoming
start early =
    let i : Incoming = record { available = early; notified = [] } in
    if ltb 0 (length early) then take_available i else i

-- Data arrive, and `slot_data_ready` runs.
unfoldable pub slot_data_ready : Incoming → List ℕ → Incoming
slot_data_ready i bytes = take_available (record i { available = i.available ++ bytes })

unfoldable pub arrive : Incoming → List (List ℕ) → Incoming
arrive i [] = i
arrive i (bytes ∷ more) = arrive (slot_data_ready i bytes) more

flatten_at_end :
    (vs : List (List ℕ)) (bytes : List ℕ) → flatten (vs ++ (bytes ∷ [])) ≡ flatten vs ++ bytes
flatten_at_end [] bytes = append-nil bytes
flatten_at_end (v ∷ vs) bytes =
    ap (◌++◌ v) (flatten_at_end vs bytes) ∙ sym (append_assoc v (flatten vs) bytes)

flatten-told :
    (vs : List (List ℕ)) (bytes : List ℕ)
    → flatten (told vs (process_available_data (some bytes))) ≡ flatten vs ++ bytes
unfolding process_available_data
flatten-told vs [] = sym (append-nil (flatten vs))
flatten-told vs (b ∷ bytes) =
    rw (lt→ltb 0 (suc (length bytes)) (omega arith)) (flatten_at_end vs (b ∷ bytes))

take_available-flatten :
    (i : Incoming)
    → flatten (take_available i).notified ++ (take_available i).available
      ≡ flatten i.notified ++ i.available
unfolding take_available
take_available-flatten i =
    ap (λ x. x ++ drop 256 i.available) (flatten-told i.notified (take 256 i.available))
    ∙ append_assoc (flatten i.notified) (take 256 i.available) (drop 256 i.available)
    ∙ ap (◌++◌ (flatten i.notified)) (take-append-drop 256 i.available)

arrive-flatten :
    (i : Incoming) (chunks : List (List ℕ))
    → flatten (arrive i chunks).notified ++ (arrive i chunks).available
      ≡ (flatten i.notified ++ i.available) ++ flatten chunks
unfolding arrive slot_data_ready
arrive-flatten i [] = sym (append-nil (flatten i.notified ++ i.available))
arrive-flatten i (bytes ∷ more) =
    arrive-flatten (slot_data_ready i bytes) more
    ∙ ap (λ x. x ++ flatten more)
        (take_available-flatten (record i { available = i.available ++ bytes })
          ∙ sym (append_assoc (flatten i.notified) i.available bytes))
    ∙ append_assoc (flatten i.notified ++ i.available) bytes (flatten more)

-- How many bytes stay with the socket, where `n` were there: each arrival lets 256 through.
unfoldable pub left_after : ℕ → List (List ℕ) → ℕ
left_after n [] = n
left_after n (bytes ∷ more) = left_after ((n + length bytes) - 256) more

length-arrive :
    (i : Incoming) (chunks : List (List ℕ))
    → length (arrive i chunks).available ≡ left_after (length i.available) chunks
unfolding arrive slot_data_ready take_available left_after
length-arrive i [] = refl
length-arrive i (bytes ∷ more) =
    length-arrive (slot_data_ready i bytes) more
    ∙ ap (λ n. left_after n more)
        (length-drop 256 (i.available ++ bytes)
          ∙ ap (λ n. n - 256) (length-append i.available bytes))

start_lem :
    (early : List ℕ)
    → (flatten (start early).notified ++ (start early).available ≡ early)
      × (length (start early).available ≡ length early - 256)
unfolding start take_available
start_lem [] = (refl, refl)
start_lem (b ∷ early) = rw (lt→ltb 0 (suc (length early)) (omega arith)) (
  take_available-flatten (record { available = b ∷ early; notified = [] }),
  length-drop 256 (b ∷ early),
)

-- Whatever was there before `start` and however data arrive: the listener is notified with the bytes in
-- order, none lost and none twice; and what stays with the socket is what a count says that takes 256
-- bytes at each arrival, so that after a long arrival bytes wait there for the next one.
pub start-arrive :
    (early : List ℕ) (chunks : List (List ℕ))
    → let i = arrive (start early) chunks in
      (flatten i.notified ++ i.available ≡ early ++ flatten chunks)
      × (length i.available ≡ left_after (length early - 256) chunks)
start-arrive early chunks =
    let (order, count) = start_lem early in
    (
      arrive-flatten (start early) chunks ∙ ap (λ x. x ++ flatten chunks) order,
      length-arrive (start early) chunks ∙ ap (λ n. left_after n chunks) count,
    )
