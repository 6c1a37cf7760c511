-- ===== src/Server/State.antt =====
-- The server's state with its surroundings: the disk, what the sockets will deliver, what was sent.
use computer_network_lab.Prelude.{
  ℕ, ◌*◌, Bool, true, false, Option, none, some, List, [], ◌∷◌, ◌++◌, if◌then◌else◌, Bytes, codes,
}
use computer_network_lab.Errors.{ErrorCode, success, socket_send_error}
use computer_network_lab.Message.{CmdMsg, Command, new_cmd_msg, set_command, encode}
use computer_network_lab.Metrics.{Metrics}
use computer_network_lab.FileSystem.{FileSystem}

-- `ServerState`.
pub data ServerState : Type 0 where
  waiting process_ls process_send process_get process_remove process_rename shutdown : ServerState

-- `ServerConfig`.
pub record ServerConfig : Type 0 where
  pub udp_port : ℕ
  pub tcp_port : ℕ
  pub http_port : ℕ
  pub backup_dir : Bytes
  pub static_dir : Bytes
  pub recv_timeout_ms : ℕ
  pub max_file_size : ℕ
  pub enable_handshake : Bool
  pub enable_http_server : Bool

abbrev pub default_config : ServerConfig
default_config = record {
  udp_port = 0;
  tcp_port = 40000;
  http_port = 8080;
  backup_dir = codes "backup";
  static_dir = codes "static";
  recv_timeout_ms = 5000;
  max_file_size = 100 * 1024 * 1024;
  enable_handshake = true;
  enable_http_server = true;
}

-- What a receive on the UDP socket meets: a datagram of some sender that is queued already, one
-- that comes after the call but within the timeout, or none.
pub data Arrival : Type 0 where
  queued later : ℕ → Bytes → Arrival
  nothing : Arrival

-- What the calls for one TCP transfer give: `socket`, `bind` and `listen`, and, if `accept`
-- succeeds, the data of each `recv`, an empty one for the end or an error.
pub record TcpSession : Type 0 where
  pub created : Bool
  pub bound : Bool
  pub listening : Bool
  pub accepted : Option (List Bytes)

-- A session that is not there fails at once.
abbrev pub no_session : TcpSession
no_session = record { created = false; bound = false; listening = false; accepted = none }

-- `client_addr` is `currentClientAddr_`: every receive overwrites it, and the handlers' argument
-- `clientAddr` is a reference to it.
pub record State (fs : FileSystem) : Type 0 where
  pub disk : fs.Disk
  pub inbox : List Arrival
  pub send_results : List Bool
  pub outbox : List (ℕ × Bytes)
  pub sessions : List TcpSession
  pub nonblocking : Bool
  pub client_addr : ℕ
  pub current_tcp_port : ℕ
  pub state : ServerState
  pub running : Bool
  pub shutdown_requested : Bool
  pub metrics : Metrics

-- A step gives a result and the state after it.
infixl 5 ◌>>=◌ ◌>>◌
abbrev pub ◌>>=◌ : {S A B : Type 0} → (S → A × S) → (A → S → B × S) → S → B × S
◌>>=◌ m f s = let (a, t) = m s in f a t

abbrev pub ◌>>◌ : {S A B : Type 0} → (S → A × S) → (S → B × S) → S → B × S
◌>>◌ m k s = let (a, t) = m s in k t

abbrev pub pure : {S A : Type 0} → A → S → A × S
pure a s = (a, s)

module _ (fs : FileSystem) where
  abbrev pub M : Type 0 → Type 0
  M A = State fs → A × State fs

  abbrev pub modify : (State fs → State fs) → M (Unit {0})
  modify f s = (tt, f s)

  send_with : List Bool → Bytes → M ErrorCode
  send_with [] b s = (success, record s { outbox = s.outbox ++ (s.client_addr, b) ∷ [] })
  send_with (ok ∷ rest) b s =
      if ok
      then (success, record s { send_results = rest; outbox = s.outbox ++ (s.client_addr, b) ∷ [] })
      else (socket_send_error, record s { send_results = rest })

  -- `sendto` the current client's address.
  unfoldable pub send_bytes : Bytes → M ErrorCode
  unfolding send_with
  send_bytes b s = send_with s.send_results b s

  -- `sendResponse`.
  unfoldable pub send_response : CmdMsg → M ErrorCode
  send_response m = send_bytes (encode m)

  -- `sendDataResponse`.
  unfoldable pub send_data_response : Bytes → M ErrorCode
  send_data_response b = send_bytes b

  receive_with : List Arrival → M (Option Bytes)
  receive_with [] s = (none, s)
  receive_with (queued a b ∷ rest) s = (some b, record s { inbox = rest; client_addr = a })
  receive_with (later a b ∷ rest) s =
      if s.nonblocking
      then (none, record s { inbox = queued a b ∷ rest })
      else (some b, record s { inbox = rest; client_addr = a })
  receive_with (nothing ∷ rest) s = (none, record s { inbox = rest })

  -- `recvfrom` inside a handler. A socket that does not block fails where it would have waited, and
  -- what comes later is then queued for the next call; `SO_RCVTIMEO` does not change that.
  unfoldable pub receive : M (Option Bytes)
  unfolding receive_with
  receive s = receive_with s.inbox s

  -- The two ways on from a receive: `recvLen <= 0`, which an empty datagram gives too, and a message.
  unfoldable pub choose : {A : Type 0} → M A → (Bytes → M A) → Option Bytes → M A
  choose failed use_bytes none = failed
  choose failed use_bytes (some []) = failed
  choose failed use_bytes (some (c ∷ b)) = use_bytes (c ∷ b)

  unfoldable pub receive_or : {A : Type 0} → M A → (Bytes → M A) → M A
  receive_or failed use_bytes = receive >>= choose failed use_bytes

  session_with : List TcpSession → M TcpSession
  session_with [] s = (no_session, s)
  session_with (t ∷ rest) s = (t, record s { sessions = rest })

  unfoldable pub next_session : M TcpSession
  unfolding session_with
  next_session s = session_with s.sessions s

-- A response of a command, an error number and a size; the other fields are zero.
unfoldable pub reply : Command → ℕ → ℕ → CmdMsg
reply command error size = record (set_command command new_cmd_msg) { error = error; size = size }
