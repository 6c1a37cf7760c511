-- ===== src/Transport/Emulator/Network.antt =====
-- What a network has to keep of a protocol's two sides, so that the emulator can stand for it.
use computer_network_lab.Prelude.{ℕ, ◌≤◌, ◌<◌, ◌≡◌, some, List, [], ◌∷◌, ◌++◌, Bytes, All, length}
use computer_network_lab.Transport.Packet.{Pkt}
use computer_network_lab.Transport.Protocol.{Protocol, Extends}
use computer_network_lab.Transport.Damage.{IsMessage}
use computer_network_lab.Transport.Emulator.Calls.{CanArrive, IsSendable}

-- A relation between the two sides and the messages handed to A that a network keeps which loses,
-- repeats, reorders and detectably damages packets, for at most 5000 messages. Logs only grow, and a
-- copy of a packet that was sent is found if the emulator corrupts it.
pub record IsNetwork (protocol : Protocol)
    (Reached : protocol.Sender → protocol.Receiver → List Bytes → Type 0) : Type 0 where
  pub on_hand_over :
      (a t : protocol.Sender) (b : protocol.Receiver) (accepted : List Bytes) (message : Bytes)
      → Reached a b accepted
      → length accepted < 5000
      → protocol.output message a ≡ some t
      → Reached t b (accepted ++ message ∷ [])
  pub on_input :
      (a : protocol.Sender) (b : protocol.Receiver) (accepted : List Bytes) (p : Pkt)
      → Reached a b accepted
      → CanArrive (protocol.receiver_log b) p
      → Reached (protocol.input p a) b accepted
  pub on_receive :
      (a : protocol.Sender) (b : protocol.Receiver) (accepted : List Bytes) (p : Pkt)
      → Reached a b accepted
      → CanArrive (protocol.sender_log a) p
      → Reached a (protocol.accept_packet p b) accepted
  pub on_timeout :
      (a : protocol.Sender) (b : protocol.Receiver) (accepted : List Bytes) (n : ℕ)
      → Reached a b accepted
      → Reached (protocol.timeout n a) b accepted
  pub output_log :
      (a t : protocol.Sender) (message : Bytes)
      → protocol.output message a ≡ some t
      → Extends (protocol.sender_log a) (protocol.sender_log t)
  pub input_log :
      (a : protocol.Sender) (p : Pkt)
      → Extends (protocol.sender_log a) (protocol.sender_log (protocol.input p a))
  pub timeout_log :
      (a : protocol.Sender) (n : ℕ)
      → Extends (protocol.sender_log a) (protocol.sender_log (protocol.timeout n a))
  pub receive_log :
      (b : protocol.Receiver) (p : Pkt)
      → Extends (protocol.receiver_log b) (protocol.receiver_log (protocol.accept_packet p b))
  pub sender_sendable :
      (a : protocol.Sender) (b : protocol.Receiver) (accepted : List Bytes)
      → Reached a b accepted
      → All IsMessage accepted
      → length accepted ≤ 5000
      → All (IsSendable (protocol.sender_log a)) (protocol.sender_log a)
  pub receiver_sendable :
      (a : protocol.Sender) (b : protocol.Receiver) (accepted : List Bytes)
      → Reached a b accepted
      → length accepted ≤ 5000
      → All (IsSendable (protocol.receiver_log b)) (protocol.receiver_log b)
