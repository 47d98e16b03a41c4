-- ===== src/Ipc/Server.antt =====
-- crates/cloudsync-ipc/src/server.rs: one connection of the server. The listener with its socket
-- file and the spawning of tasks are calls of the system and of tokio.
pub mod Replies
pub mod Tests
use uni_cloud_file_sync_thin.Prelude.{
  Text, text, ◌++◌, Bool, true, false, Option, none, some, List, [], ◌∷◌, Result, ok, err,
}
use uni_cloud_file_sync_thin.Ipc.Error.{Error, display, json}
use uni_cloud_file_sync_thin.Ipc.Messages.{Request, Response}
use uni_cloud_file_sync_thin.Ipc.Transport.{Bytes, Streams, Json, read_message, write_message}

-- The trait `RequestHandler`, on a state of any type.
abbrev pub Handler : Type 0 → Type 0
Handler S = Request → S → Result Error Response × S

pub record Connection (S : Type 0) : Type 0 where
  pub input : Bytes
  pub output : Bytes
  pub state : S

module _ {S : Type 0} (streams : Streams) (requests : Json Request) (responses : Json Response)
    (handle : Handler S) where
  -- How a connection ended, or none while it waits.
  abbrev pub Ended : Type 0
  Ended = Option (Result Error (Unit {0})) × Connection S

  -- `?` on a write, and the next round.
  after_write : (Connection S → Ended) → Bytes → S → Result Error (Unit {0}) × Bytes → Ended
  after_write rounds input s (ok _, output) =
      rounds (record { input = input; output = output; state = s })
  after_write rounds input s (err e, output) =
      (some (err e), record { input = input; output = output; state = s })

  -- The `match` on what the handler returns.
  unfoldable pub response_of : Result Error Response → Response
  unfolding display
  response_of (ok response) = response
  response_of (err e) = Response.error (text "internal error: " ++ display e)

  respond : (Connection S → Ended) → Bytes → Bytes → Result Error Response × S → Ended
  unfolding after_write response_of write_message
  respond rounds input output (r, s) =
      after_write rounds input s (write_message streams responses (response_of r) output)

  after_read : (Connection S → Ended) → Connection S → Result Error (Option Request) × Bytes → Ended
  unfolding respond after_write write_message
  after_read rounds c (ok (some request), input) =
      respond rounds input c.output (handle request c.state)
  after_read rounds c (ok none, input) = (some (ok tt), record c { input = input })
  after_read rounds c (err (json e), input) =
      after_write rounds input c.state
        (write_message streams responses (Response.error (text "malformed JSON: " ++ e)) c.output)
  after_read rounds c (err e, input) = (some (err e), record c { input = input })

  -- The loop of `handle_connection`. For each round, whether the branch of the shutdown signal is
  -- taken, and then its value.
  unfoldable pub handle_connection : List (Option Bool) → Connection S → Ended
  unfolding after_read read_message
  handle_connection [] c = (none, c)
  handle_connection (some true ∷ signals) c = (some (ok tt), c)
  handle_connection (some false ∷ signals) c = handle_connection signals c
  handle_connection (none ∷ signals) c =
      after_read (handle_connection signals) c (read_message streams requests c.input)
