-- ===== src/Ipc/Transport/Framing.antt =====
-- A message that is written is read back, whatever follows it on the stream.
use uni_cloud_file_sync_thin.Prelude.{
  ◌<◌, false, none, some, [], ◌∷◌, ◌++◌, length, length-append, All, ltb, ◌==◌, if◌then◌else◌, ok,
  ◌≡◌, ◌≢◌, refl, arith,
}
use uni_cloud_file_sync_thin.Ipc.Transport.{
  Bytes, max_message_size, newline, Streams, Json, received, read_message, encoded, sent, flushed,
  write_message,
}

-- The bytes up to the first newline and with it, or all of them, and the rest.
unfoldable pub split_line : Bytes → Bytes × Bytes
split_line [] = ([], [])
split_line (c ∷ bytes) =
    let rest = split_line bytes in if c == newline then (c ∷ [], bytes) else (c ∷ rest.0, rest.1)

-- A stream on which no operation fails: `read_line` reads to the end of the line, and what is
-- written is appended.
pub record IsReliable (streams : Streams) : Type 0 where
  pub read_line : (input : Bytes) → streams.read_line input ≡ ok (split_line input)
  pub write_all : (output bytes : Bytes) → streams.write_all output bytes ≡ ok (output ++ bytes)
  pub flush : (output : Bytes) → streams.flush output ≡ ok output

-- JSON in compact form has no newline, and is read back from its line.
pub record IsJson (streams : Streams) {A : Type 0} (codec : Json A) : Type 0 where
  pub one_line : (a : A) (line : Bytes) → codec.to_string a ≡ ok line → All (λ c. c ≢ newline) line
  pub read_back :
      (a : A) (line : Bytes)
      → codec.to_string a ≡ ok line
      → codec.from_str (streams.trim_end (line ++ newline ∷ [])) ≡ ok a

-- The message has this text, which is not too long with its newline.
pub record Fits {A : Type 0} (codec : Json A) (a : A) (line : Bytes) : Type 0 where
  pub text : codec.to_string a ≡ ok line
  pub short : length line < max_message_size

split_line-append :
    (line rest : Bytes)
    → All (λ c. c ≢ newline) line
    → split_line ((line ++ newline ∷ []) ++ rest) ≡ (line ++ newline ∷ [], rest)
unfolding split_line
split_line-append [] rest h = refl
split_line-append (c ∷ line) rest h =
    let differs = h.0 in rw (split_line-append line rest h.1) (ground arith)

module _ (streams : Streams) (reliable : IsReliable streams) {A : Type 0} (codec : Json A)
    (laws : IsJson streams codec) where
  received-line :
      (input line rest : Bytes) (a : A)
      → length line < max_message_size
      → codec.from_str (streams.trim_end (line ++ newline ∷ [])) ≡ ok a
      → received streams codec input (ok (line ++ newline ∷ [], rest)) ≡ (ok (some a), rest)
  unfolding received
  received-line input [] rest a short e = rw e refl
  received-line input (c ∷ line) rest a short e =
      let small : ltb max_message_size (length ((c ∷ line) ++ newline ∷ [])) ≡ false =
        ground (arith, length-append line (newline ∷ [])) in
      rw (small, e) refl

  -- On a stream where nothing fails, `write_message` appends the text of the message and a newline.
  pub write_message-line :
      (a : A) (line output : Bytes)
      → codec.to_string a ≡ ok line
      → write_message streams codec a output ≡ (ok tt, output ++ (line ++ newline ∷ []))
  unfolding write_message encoded sent flushed
  write_message-line a line output e =
      rw (e, reliable.write_all output (line ++ newline ∷ []), reliable.flush) refl

  -- `read_message` reads back what `write_message` wrote for a message that is not too long, and
  -- leaves what follows.
  pub read_message-line :
      (a : A) (line rest : Bytes)
      → Fits codec a line
      → read_message streams codec ((line ++ newline ∷ []) ++ rest) ≡ (ok (some a), rest)
  unfolding read_message
  read_message-line a line rest fits =
      rw (reliable.read_line, split_line-append line rest (laws.one_line a line fits.text))
        (received-line ((line ++ newline ∷ []) ++ rest) line rest a fits.short
          (laws.read_back a line fits.text))

  -- The end of the stream.
  pub read_message-end : read_message streams codec [] ≡ (ok none, [])
  unfolding read_message received split_line
  read_message-end = rw (reliable.read_line []) refl
