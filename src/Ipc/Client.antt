-- ===== src/Ipc/Client.antt =====
-- crates/cloudsync-ipc/src/client.rs: one request of a client, and its errors. The connection to the
-- socket is a call of tokio.
use uni_cloud_file_sync_thin.Prelude.{
  Text, text, ◌++◌, Bool, true, false, Option, none, some, [], Result, ok, err, if◌then◌else◌,
}
use uni_cloud_file_sync_thin.Core.Display.{decimal}
use uni_cloud_file_sync_thin.Ipc.Error.{
  Error, IoError, IoErrorKind, io, json, connection_closed, message_too_large, handler,
}
use uni_cloud_file_sync_thin.Ipc.Messages.{Request, Response}
use uni_cloud_file_sync_thin.Ipc.Transport.{Bytes, Streams, Json, read_message, write_message}

pub data IpcError : Type 0 where
  daemon_not_running daemon_unresponsive : IpcError
  protocol : Text → IpcError
  io_error : IoError → IpcError

unfoldable pub not_running : IoErrorKind → Bool
not_running IoErrorKind.not_found = true
not_running IoErrorKind.connection_refused = true
not_running IoErrorKind.connection_reset = true
not_running IoErrorKind.addr_not_available = true
not_running IoErrorKind.invalid_input = true
not_running _ = false

-- `map_connect_error`
unfoldable pub map_connect_error : IoError → IpcError
unfolding not_running
map_connect_error e = if not_running e.kind then daemon_not_running else io_error e

unfoldable pub hung_up : IoErrorKind → Bool
hung_up IoErrorKind.broken_pipe = true
hung_up IoErrorKind.connection_reset = true
hung_up IoErrorKind.not_connected = true
hung_up _ = false

-- `map_transport_error`
unfoldable pub map_transport_error : Error → IpcError
unfolding hung_up decimal
map_transport_error (io e) = if hung_up e.kind then daemon_unresponsive else io_error e
map_transport_error (json message) = protocol message
map_transport_error connection_closed = daemon_unresponsive
map_transport_error (message_too_large size limit) =
    protocol (text "message too large: " ++ decimal size ++ text " exceeds " ++ decimal limit)
map_transport_error (handler message) = protocol message

-- What the client reads and what it has written.
pub record Socket : Type 0 where
  pub input : Bytes
  pub output : Bytes

module _ (streams : Streams) (requests : Json Request) (responses : Json Response) where
  -- The `match` on what is read before the timeout.
  answered : Bytes → Result Error (Option Response) × Bytes → Result IpcError Response × Socket
  unfolding map_transport_error
  answered output (ok (some response), input) =
      (ok response, record { input = input; output = output })
  answered output (ok none, input) =
      (err daemon_unresponsive, record { input = input; output = output })
  answered output (err e, input) =
      (err (map_transport_error e), record { input = input; output = output })

  -- `in_time` tells whether an answer comes before the timeout.
  after_request : Bool → Bytes → Result Error (Unit {0}) × Bytes → Result IpcError Response × Socket
  unfolding answered read_message map_transport_error
  after_request in_time input (err e, output) =
      (err (map_transport_error e), record { input = input; output = output })
  after_request true input (ok _, output) = answered output (read_message streams responses input)
  after_request false input (ok _, output) =
      (err daemon_unresponsive, record { input = input; output = output })

  -- `IpcClient::request`
  unfoldable pub request : Bool → Request → Socket → Result IpcError Response × Socket
  unfolding after_request write_message
  request in_time message socket =
      after_request in_time socket.input (write_message streams requests message socket.output)

  -- `IpcClient::get_status`
  unfoldable pub get_status : Bool → Text → Socket → Result IpcError Response × Socket
  unfolding request
  get_status in_time path socket = request in_time (Request.get_status path) socket

  alive : Result IpcError Response × Socket → Result IpcError Bool × Socket
  alive (ok (Response.error message), socket) = (ok false, socket)
  alive (ok response, socket) = (ok true, socket)
  alive (err e, socket) = (err e, socket)

  -- `IpcClient::ping`
  unfoldable pub ping : Bool → Socket → Result IpcError Bool × Socket
  unfolding alive request
  ping in_time socket = alive (request in_time (Request.get_status_batch []) socket)
