-- ===== src/Ipc/Transport.antt =====
-- crates/cloudsync-ipc/src/transport.rs: messages as lines of JSON. What is to be read of a stream
-- is the list of its bytes up to the end of the stream, and what is written is the list of the
-- bytes so far.
pub mod Framing
use uni_cloud_file_sync_thin.Prelude.{
  Text, ℕ, Bool, Option, none, some, List, [], ◌∷◌, ◌++◌, length, ltb, ◌==◌, if◌then◌else◌, Result,
  ok, err, map_err,
}
use uni_cloud_file_sync_thin.Ipc.Error.{Error, IoError, io, json, message_too_large}

abbrev pub Bytes : Type 0
Bytes = List ℕ

-- `MAX_MESSAGE_SIZE`
abbrev pub max_message_size : ℕ
max_message_size = 1048576

abbrev pub newline : ℕ
newline = 10

-- What std, tokio and serde_json do: `read_line` gives the line with its end and what is left,
-- `write_all` and `flush` give what is written after it.
pub record Streams : Type 0 where
  pub read_line : Bytes → Result IoError (Bytes × Bytes)
  pub write_all : Bytes → Bytes → Result IoError Bytes
  pub flush : Bytes → Result IoError Bytes
  pub trim_end : Bytes → Bytes

pub record Json (A : Type 0) : Type 0 where
  pub to_string : A → Result Text Bytes
  pub from_str : Bytes → Result Text A

module _ (streams : Streams) {A : Type 0} (codec : Json A) where
  parsed : Bytes → Result Text A → Result Error (Option A) × Bytes
  parsed input (ok message) = (ok (some message), input)
  parsed input (err e) = (err (json e), input)

  received : Bytes → Result IoError (Bytes × Bytes) → Result Error (Option A) × Bytes
  unfolding parsed
  received input (ok ([], rest)) = (ok none, rest)
  received input (ok (c ∷ line, rest)) =
      let message = parsed rest (codec.from_str (streams.trim_end (c ∷ line))) in
      if ltb max_message_size (length (c ∷ line))
      then (err (message_too_large (length (c ∷ line)) max_message_size), rest)
      else message
  received input (err e) = (err (io e), input)

  -- `read_message`, with what is left to be read
  unfoldable pub read_message : Bytes → Result Error (Option A) × Bytes
  unfolding received
  read_message input = received input (streams.read_line input)

  flushed : Bytes → Result IoError Bytes → Result Error (Unit {0}) × Bytes
  flushed output (ok written) = (ok tt, written)
  flushed output (err e) = (err (io e), output)

  sent : Bytes → Result IoError Bytes → Result Error (Unit {0}) × Bytes
  unfolding flushed
  sent output (ok written) = flushed written (streams.flush written)
  sent output (err e) = (err (io e), output)

  encoded : Bytes → Result Text Bytes → Result Error (Unit {0}) × Bytes
  unfolding sent
  encoded output (ok line) = sent output (streams.write_all output (line ++ newline ∷ []))
  encoded output (err e) = (err (json e), output)

  -- `write_message`, with what is written after it
  unfoldable pub write_message : A → Bytes → Result Error (Unit {0}) × Bytes
  unfolding encoded
  write_message message output = encoded output (codec.to_string message)
