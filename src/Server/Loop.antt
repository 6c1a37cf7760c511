-- ===== src/Server/Loop.antt =====
-- `Server::initialize` and `Server::run`. The HTTP server's thread is a component of its own.
use computer_network_lab.Prelude.{
  ℕ, zero, suc, Bool, true, false, not, List, [], ◌∷◌, ◌==◌, if◌then◌else◌, Bytes, length, ◌||◌,
}
use computer_network_lab.Errors.{
  ErrorCode, success, socket_create_error, socket_bind_error, error_code_to_string, is_success,
}
use computer_network_lab.Message.{
  CmdMsg, Command, command_code, command_to_string, get_command, receive_cmd,
}
use computer_network_lab.Metrics.{record_request, record_error, new_metrics}
use computer_network_lab.FileSystem.{FileSystem, create_directory}
use computer_network_lab.Server.State.{
  State, ServerConfig, ServerState, waiting, Arrival, queued, later, nothing, TcpSession, M, ◌>>=◌,
  ◌>>◌, modify,
}
use computer_network_lab.Server.Handlers.{process_command}

-- What `socket` and `bind` give for the UDP socket.
pub record UdpSetup : Type 0 where
  pub created : Bool
  pub bound : Bool

module _ (fs : FileSystem) (config : ServerConfig) where
  -- The constructor, with the surroundings that the server starts in.
  unfoldable pub new_server : fs.Disk → List Arrival → List Bool → List TcpSession → State fs
  new_server disk inbox send_results sessions = record {
    disk = disk;
    inbox = inbox;
    send_results = send_results;
    outbox = [];
    sessions = sessions;
    nonblocking = false;
    client_addr = 0;
    current_tcp_port = config.tcp_port;
    state = waiting;
    running = false;
    shutdown_requested = false;
    metrics = new_metrics;
  }

  -- `initialize`: the socket is set to non-blocking, and the backup directory made.
  unfoldable pub initialize : UdpSetup → M fs ErrorCode
  initialize setup s =
      if not setup.created
      then (socket_create_error, s)
      else if not setup.bound
      then (socket_bind_error, s)
      else (
        success,
        record s { nonblocking = true; disk = (create_directory fs s.disk config.backup_dir).1 },
      )

  -- The metrics of a failed command; a shutdown is not counted.
  unfoldable pub count_failure : CmdMsg → ErrorCode → M fs (Unit {0})
  count_failure cmd result s =
      if is_success result || (command_code (get_command cmd) == command_code Command.shutdown)
      then (tt, s)
      else (
        tt,
        record s {
          metrics =
              record_error (command_to_string (get_command cmd)) (error_code_to_string result)
                s.metrics;
        },
      )

  -- The end of a round: back to waiting, unless the command was a shutdown.
  unfoldable pub end_round : M fs (Unit {0})
  end_round s = elim s.state [
    | ServerState.shutdown ↦ (tt, s)
    | _ ↦ (tt, record s { state = waiting })
  ]

  -- The handling of one received command message.
  unfoldable pub handle_message : CmdMsg → M fs (Unit {0})
  handle_message cmd = do
    modify fs
        (λ s. record s { metrics = record_request (command_to_string (get_command cmd)) s.metrics })
    result ← process_command fs config cmd
    count_failure cmd result
    end_round

  -- A datagram of the main loop; an empty one is passed over.
  unfoldable pub handle_datagram : ℕ → Bytes → M fs (Unit {0})
  handle_datagram sender [] s = (tt, record s { client_addr = sender })
  handle_datagram sender (c ∷ b) s =
      handle_message (receive_cmd (c ∷ b)) (record s { client_addr = sender })

  -- One round of the loop with something to receive: `select` waits until a datagram is there.
  unfoldable pub take_arrival : List Arrival → M fs (Unit {0})
  take_arrival [] s = (tt, s)
  take_arrival (queued sender b ∷ rest) s = handle_datagram sender b (record s { inbox = rest })
  take_arrival (later sender b ∷ rest) s = handle_datagram sender b (record s { inbox = rest })
  take_arrival (nothing ∷ rest) s = (tt, record s { inbox = rest })

  unfoldable pub round : State fs → State fs
  round s = (take_arrival s.inbox s).1

  abbrev pub stops : State fs → Bool
  stops s = elim s.state [ ServerState.shutdown ↦ true | _ ↦ s.shutdown_requested ]

  -- The loop of `run`, until a shutdown or until nothing more arrives; each round takes an arrival,
  -- so their number is enough fuel.
  unfoldable pub serve : ℕ → State fs → State fs
  serve zero s = s
  serve (suc fuel) s = let next = serve fuel (round s) in if stops s then s else next

  -- `run`: it ends if a shutdown is requested.
  unfoldable pub run : State fs → State fs
  run s =
      let t = record s { running = true; state = waiting } in
      let u = serve (length t.inbox) t in if stops u then record u { running = false } else u
