-- ===== src/Wire/Frames.antt =====
-- `write_message` and `read_message` of src/tunnel.rs, on the bytes of a stream.
use punchgate.Common.{
  ℕ, ◌+◌, ◌-◌, ◌*◌, ◌/◌, ◌%◌, ◌^◌, String, List, [], ◌∷◌, ◌++◌, length, take, drop, leb, ltb,
  if◌then◌else◌, Result, ok, err, ◌>>=◌, map_err,
}

pub data WireError : Type 0 where
  -- `serde_json` refuses the value or the bytes.
  json : String → WireError
  too_large_for_prefix unexpected_eof connection_lost : WireError
  message_too_large : ℕ → WireError

-- `serde_json::to_vec` and `serde_json::from_slice` at one type.
pub record Json (T : Type 0) : Type 0 where
  pub to_vec : T → Result String (List ℕ)
  pub from_slice : List ℕ → Result String T

-- The sending side: the bytes that arrive, and how many more the connection takes before it
-- fails.
pub record Sink : Type 0 where
  pub bytes : List ℕ
  pub room : ℕ

unfoldable pub write_all : List ℕ → Sink → Result WireError Sink
write_all buf sink =
    if leb (length buf) sink.room
    then ok (record { bytes = sink.bytes ++ buf; room = sink.room - length buf })
    else err connection_lost

-- The bytes read, and those behind them.
unfoldable pub read_exact : ℕ → List ℕ → Result WireError (List ℕ × List ℕ)
read_exact n stream =
    if leb n (length stream) then ok (take n stream, drop n stream) else err unexpected_eof

-- `u32::to_be_bytes`.
abbrev pub to_be_bytes : ℕ → List ℕ
to_be_bytes n = n / 2 ^ 24 % 256 ∷ (n / 2 ^ 16 % 256 ∷ (n / 2 ^ 8 % 256 ∷ (n % 256 ∷ [])))

abbrev pub from_be_bytes : List ℕ → ℕ
from_be_bytes (a ∷ b ∷ c ∷ d ∷ []) = a * 2 ^ 24 + b * 2 ^ 16 + c * 2 ^ 8 + d
from_be_bytes _ = 0

abbrev pub max_message_size : ℕ
max_message_size = 65536

module _ {T : Type 0} (codec : Json T) where
  unfoldable pub write_message : T → Sink → Result WireError Sink
  unfolding write_all
  write_message msg sink = do
    data_bytes ← map_err json (codec.to_vec msg)
    if leb (2 ^ 32) (length data_bytes) then err too_large_for_prefix else do
      prefixed ← write_all (to_be_bytes (length data_bytes)) sink
      write_all data_bytes prefixed

  -- The message, and the bytes behind it.
  unfoldable pub read_message : List ℕ → Result WireError (T × List ℕ)
  unfolding read_exact
  read_message stream = do
    (len_buf, body) ← read_exact 4 stream
    let len = from_be_bytes len_buf
    if ltb max_message_size len then err (message_too_large len) else do
      (buf, rest) ← read_exact len body
      msg ← map_err json (codec.from_slice buf)
      ok (msg, rest)
