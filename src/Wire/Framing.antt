-- ===== src/Wire/Framing.antt =====
-- The frames of src/tunnel.rs: what is written is read back, and what is too long is refused.
use punchgate.Common.{
  ℕ, ◌+◌, ◌-◌, ◌^◌, ◌≤◌, ◌<◌, ◌≡◌, ◌∙◌, refl, ap, subst, List, [], ◌++◌, length, take-append,
  drop-append, length-append, length-drop, leb, ltb, arith, if◌then◌else◌, if_false, if_true,
  leb-true, leb-false, ltb-true, ltb-false, if_cases, Result, ok, err, ◌>>=◌, map_err, bind_rule,
}
use punchgate.Wire.Frames.{
  WireError, json, message_too_large, Json, Sink, write_all, read_exact, to_be_bytes, from_be_bytes,
  max_message_size, write_message, read_message,
}

from_be_bytes-to_be_bytes : (n : ℕ) → n < 2 ^ 32 → from_be_bytes (to_be_bytes n) ≡ n
from_be_bytes-to_be_bytes n h = omega (arith, h)

read_exact-append : (xs ys : List ℕ) → read_exact (length xs) (xs ++ ys) ≡ ok (xs, ys)
unfolding read_exact
read_exact-append xs ys =
    let h : length xs ≤ length (xs ++ ys) = omega (arith, length-append xs ys) in
    if_true _ _ (leb-true h) ∙ rw (take-append xs ys, drop-append xs ys) refl

-- The bytes that a message takes on the stream.
abbrev pub frame : List ℕ → List ℕ
frame data_bytes = to_be_bytes (length data_bytes) ++ data_bytes

write_all_ok :
    (buf : List ℕ) (sink : Sink)
    → length buf ≤ sink.room
    → write_all buf sink ≡ ok (record { bytes = sink.bytes ++ buf; room = sink.room - length buf })
unfolding write_all
write_all_ok buf sink h = if_true _ _ (leb-true h)

-- The steps of `read_message` behind the length, and behind the message's bytes.
module _ {T : Type 0} (codec : Json T) where
  abbrev decode : List ℕ × List ℕ → Result WireError (T × List ℕ)
  decode (buf, rest) = map_err json (codec.from_slice buf) >>= (λ msg. ok (msg, rest))

  abbrev read_body : List ℕ × List ℕ → Result WireError (T × List ℕ)
  read_body (len_buf, body) =
      let len = from_be_bytes len_buf in
      if ltb max_message_size len
      then err (message_too_large len)
      else (read_exact len body >>= decode)

module _ {T : Type 0} (codec : Json T) (msg : T) (data_bytes : List ℕ)
    (encoded : codec.to_vec msg ≡ ok data_bytes) where
  -- A message that the connection has room for arrives as its frame.
  pub write_message-frame :
      (sink : Sink)
      → length data_bytes < 2 ^ 32
      → 4 + length data_bytes ≤ sink.room
      → write_message codec msg sink
        ≡ ok (record {
          bytes = (sink.bytes ++ to_be_bytes (length data_bytes)) ++ data_bytes;
          room = sink.room - 4 - length data_bytes;
        })
  unfolding write_message
  write_message-frame sink h r =
      let prefix = to_be_bytes (length data_bytes) in
      let prefixed : Sink = record { bytes = sink.bytes ++ prefix; room = sink.room - 4 } in
      rw encoded (
        if_false _ _ (leb-false h)
        ∙ ap (λ (m : Result WireError Sink). m >>= write_all data_bytes)
            (write_all_ok prefix sink (omega arith))
        ∙ write_all_ok data_bytes prefixed (omega arith))

  pub read_message-frame :
      (rest : List ℕ)
      → length data_bytes ≤ max_message_size
      → codec.from_slice data_bytes ≡ ok msg
      → read_message codec (frame data_bytes ++ rest) ≡ ok (msg, rest)
  unfolding read_message
  read_message-frame rest h decoded =
      ap (λ m. m >>= read_body codec)
        (read_exact-append (to_be_bytes (length data_bytes)) (data_bytes ++ rest))
      ∙ rw (from_be_bytes-to_be_bytes (length data_bytes) (omega arith)) (
          if_false _ _ (ltb-false h)
          ∙ ap (λ m. m >>= decode codec) (read_exact-append data_bytes rest)
          ∙ rw decoded refl)

-- How much `read_exact` takes.
abbrev Takes : ℕ → List ℕ → Result WireError (List ℕ × List ℕ) → Type 0
Takes n stream (ok (buf, rest)) = n + length rest ≡ length stream
Takes n stream (err e) = Unit {0}

read_exact-Takes : (n : ℕ) (stream : List ℕ) → Takes n stream (read_exact n stream)
unfolding read_exact
read_exact-Takes n stream =
    if_cases (Takes n stream) (leb n (length stream))
      (λ h. length-drop n stream (ground (arith, h))) (λ _. tt)

module _ {T : Type 0} (codec : Json T) where
  abbrev IsBounded : List ℕ → Result WireError (T × List ℕ) → Type 0
  IsBounded stream (ok (msg, rest)) =
      (n : ℕ) × n ≤ max_message_size × (4 + n + length rest ≡ length stream)
  IsBounded stream (err e) = Unit {0}

  read_message-IsBounded : (stream : List ℕ) → IsBounded stream (read_message codec stream)
  unfolding read_message
  read_message-IsBounded stream =
      bind_rule (IsBounded stream) (read_exact 4 stream) (λ _. tt)
        (λ taken e.
          let len = from_be_bytes taken.0 in
          if_cases (IsBounded stream) (ltb max_message_size len) (λ _. tt)
            (λ h.
              bind_rule (IsBounded stream) (read_exact len taken.1) (λ _. tt)
                (λ body f.
                  bind_rule (IsBounded stream) (map_err json (codec.from_slice body.0)) (λ _. tt)
                    (λ msg _.
                      let first = subst (Takes 4 stream) e (read_exact-Takes 4 stream) in
                      let second = subst (Takes len taken.1) f (read_exact-Takes len taken.1) in
                      (len, ground (arith, h), omega (arith, first, second))))))

  -- A message that is accepted took the prefix and at most 65536 bytes of the stream, and what
  -- is behind them is left.
  pub read_message_bound :
      (stream rest : List ℕ) (msg : T)
      → read_message codec stream ≡ ok (msg, rest)
      → (n : ℕ) × n ≤ max_message_size × (4 + n + length rest ≡ length stream)
  read_message_bound stream rest msg h = subst (IsBounded stream) h (read_message-IsBounded stream)

  read_message_too_large :
      (data_bytes rest : List ℕ)
      → max_message_size < length data_bytes
      → length data_bytes < 2 ^ 32
      → read_message codec (frame data_bytes ++ rest) ≡ err (message_too_large (length data_bytes))
  unfolding read_message
  read_message_too_large data_bytes rest l h =
      ap (λ m. m >>= read_body codec)
        (read_exact-append (to_be_bytes (length data_bytes)) (data_bytes ++ rest))
      ∙ rw (from_be_bytes-to_be_bytes (length data_bytes) h) (if_true _ _ (ltb-true l))

  -- A message of at most 65536 bytes that the connection has room for is written, and what
  -- arrives, whatever is behind it, is read back as the message.
  pub write_then_read :
      (msg : T) (data_bytes rest : List ℕ) (room : ℕ)
      → codec.to_vec msg ≡ ok data_bytes
      → codec.from_slice data_bytes ≡ ok msg
      → length data_bytes ≤ max_message_size
      → 4 + length data_bytes ≤ room
      → (sent : Sink) × (write_message codec msg (record { bytes = []; room = room }) ≡ ok sent)
        × (read_message codec (sent.bytes ++ rest) ≡ ok (msg, rest))
  write_then_read msg data_bytes rest room e d h r = (
    _,
    write_message-frame codec msg data_bytes e (record { bytes = []; room = room })
        (omega (arith, h)) r,
    read_message-frame codec msg data_bytes e rest h d,
  )

  -- A longer message is written all the same, where its length fits the prefix, but the
  -- reader refuses it.
  pub write_then_refuse :
      (msg : T) (data_bytes rest : List ℕ) (room : ℕ)
      → codec.to_vec msg ≡ ok data_bytes
      → max_message_size < length data_bytes
      → length data_bytes < 2 ^ 32
      → 4 + length data_bytes ≤ room
      → (sent : Sink) × (write_message codec msg (record { bytes = []; room = room }) ≡ ok sent)
        × (read_message codec (sent.bytes ++ rest) ≡ err (message_too_large (length data_bytes)))
  write_then_refuse msg data_bytes rest room e l h r = (
    _,
    write_message-frame codec msg data_bytes e (record { bytes = []; room = room }) h r,
    read_message_too_large data_bytes rest l h,
  )
