-- ===== src/Ipc/Server/Replies.antt =====
-- What a client that sends several requests and then reads gets back from a connection.
use mathlib.Core.List.{append_assoc, append-nil}
use uni_cloud_file_sync_thin.Prelude.{
  ℕ, zero, suc, Bool, Option, none, some, List, [], ◌∷◌, ◌++◌, length, Result, ok, err, ◌≡◌, refl,
  ap, ◌∙◌,
}
use uni_cloud_file_sync_thin.Ipc.Error.{Error}
use uni_cloud_file_sync_thin.Ipc.Messages.{Request, Response}
use uni_cloud_file_sync_thin.Ipc.Transport.{Bytes, newline, Streams, Json, read_message}
use uni_cloud_file_sync_thin.Ipc.Transport.Framing.{
  IsReliable, IsJson, Fits, read_message-line, read_message-end, write_message-line,
}
use uni_cloud_file_sync_thin.Ipc.Server.{
  Handler, after_write, response_of, respond, after_read, handle_connection,
}

module _ {A : Type 0} (codec : Json A) where
  -- Messages with their texts, and the lines that they make on a stream.
  pub data Lines : List A → Bytes → Type 0 where
    no_line : Lines [] []
    line_then :
        {a : A} {later_ones : List A} {bytes : Bytes} (line : Bytes)
        → Fits codec a line
        → Lines later_ones bytes
        → Lines (a ∷ later_ones) ((line ++ newline ∷ []) ++ bytes)

module _ (streams : Streams) {A : Type 0} (codec : Json A) where
  -- `read_message` a number of times, until an error or the end.
  more : A → Result Error (List A) → Result Error (List A)
  more a (ok found) = ok (a ∷ found)
  more a (err e) = err e

  collected :
      (Bytes → Result Error (List A)) → Result Error (Option A) × Bytes → Result Error (List A)
  unfolding more
  collected rest (ok (some a), input) = more a (rest input)
  collected rest (ok none, input) = ok []
  collected rest (err e, input) = err e

  unfoldable pub read_messages : ℕ → Bytes → Result Error (List A)
  unfolding collected read_message
  read_messages zero input = ok []
  read_messages (suc n) input = collected (read_messages n) (read_message streams codec input)

-- A round without a shutdown for each message, and one for the end of the stream.
abbrev pub rounds_for : {A : Type 0} → List A → List (Option Bool)
rounds_for [] = none ∷ []
rounds_for (a ∷ later_ones) = none ∷ rounds_for later_ones

module _ {S : Type 0} (streams : Streams) (requests : Json Request) (responses : Json Response)
    (handle : Handler S) where
  -- The responses to requests, one after the other, and the state after them.
  unfoldable pub answers : List Request → S → List Response × S
  unfolding response_of
  answers [] s = ([], s)
  answers (request ∷ rest) s =
      let answered = handle request s in
      let later_ones = answers rest answered.1 in
      (response_of streams requests responses handle answered.0 ∷ later_ones.0, later_ones.1)

module _ (streams : Streams) (reliable : IsReliable streams) {A : Type 0} (codec : Json A)
    (laws : IsJson streams codec) where
  read_messages-Lines :
      {messages : List A} {bytes : Bytes}
      → Lines codec messages bytes
      → read_messages streams codec (length messages) bytes ≡ ok messages
  unfolding read_messages collected more
  read_messages-Lines no_line = refl
  read_messages-Lines (line_then {a} {bytes} line fits lines) =
      rw
        (read_message-line streams reliable codec laws a line bytes fits, read_messages-Lines lines)
        refl

module _ {S : Type 0} (streams : Streams) (reliable : IsReliable streams) (requests : Json Request)
    (responses : Json Response) (request_laws : IsJson streams requests)
    (response_laws : IsJson streams responses) (handle : Handler S) where
  connection-answers :
      {sent : List Request} {input : Bytes}
      → Lines requests sent input
      → (s : S) (before output : Bytes)
      → Lines responses (answers streams requests responses handle sent s).0 output
      → handle_connection streams requests responses handle
          (rounds_for sent)
          (record { input = input; output = before; state = s })
        ≡ (
          some (ok tt),
          record {
            input = [];
            output = before ++ output;
            state = (answers streams requests responses handle sent s).1;
          },
        )
  unfolding handle_connection after_read respond after_write answers
  connection-answers no_line s before output no_line =
      rw (read_message-end streams reliable requests request_laws, append-nil before) refl
  connection-answers (line_then {a} {later_ones} {bytes} line fits lines) s before output
        (line_then {a = response} {bytes = out} reply reply_fits replies) =
      rw
        (
          read_message-line streams reliable requests request_laws a line bytes fits,
          write_message-line streams reliable responses response_laws response reply before
              reply_fits.text,
        )
        (connection-answers lines (handle a s).1 (before ++ (reply ++ newline ∷ [])) out replies
          ∙ ap
              (λ sent. (
                some (ok tt),
                record {
                  input = [];
                  output = sent;
                  state = (answers streams requests responses handle (a ∷ later_ones) s).1;
                },
              ))
              (append_assoc before (reply ++ newline ∷ []) out))

  -- A client sends requests and closes its side; no message is too long and no operation of the
  -- stream fails. Without a shutdown, the connection then ends without an error, with the handler's
  -- state after all the requests in order; and what it wrote is read back as the handler's
  -- responses, one for each request, in order, where a failure of the handler is a response too.
  pub handle_connection-answers :
      {sent : List Request} {input : Bytes}
      → Lines requests sent input
      → (s : S) (output : Bytes)
      → Lines responses (answers streams requests responses handle sent s).0 output
      → (handle_connection streams requests responses handle
            (rounds_for sent)
            (record { input = input; output = []; state = s })
          ≡ (
            some (ok tt),
            record {
              input = [];
              output = output;
              state = (answers streams requests responses handle sent s).1;
            },
          ))
        × (read_messages streams responses
              (length (answers streams requests responses handle sent s).0)
              output
            ≡ ok (answers streams requests responses handle sent s).0)
  handle_connection-answers lines s output replies = (
    connection-answers lines s [] output replies,
    read_messages-Lines streams reliable responses response_laws replies,
  )
