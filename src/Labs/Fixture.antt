-- ===== src/Labs/Fixture.antt =====
-- A platform with short arrays, and a client and a server of the first version on disks that are
-- kept in memory.
use computer_network_lab.Prelude.{
  refl, false, true, Option, none, some, [], ◌∷◌, Bytes, codes, bytes_eq, if◌then◌else◌, get_or,
}
use computer_network_lab.FileSystem.Memory.{MemoryDisk, memory, memory_unlink}
use computer_network_lab.Server.State.{TcpSession}
use computer_network_lab.Client.{Connection}
use computer_network_lab.Labs.{Platform, IsPlatform, CmdMsgT, Datagram, command, content}
use computer_network_lab.Labs.Server.{Lab}
use computer_network_lab.Labs.Server
use computer_network_lab.Labs.Client.{LabClient}
use computer_network_lab.Labs.Client

-- A data message received into a command message replaces the command by its first byte.
abbrev pub command_from : CmdMsgT → Datagram → CmdMsgT
command_from old (command m) = m
command_from old (content b) = record old { cmd = get_or b 0 0 }

abbrev pub text_from : Bytes → Datagram → Bytes
text_from old (command m) = old
text_from old (content b) = b

abbrev pub platform : Platform memory
platform = record {
  data_buf_len = 4;
  file_name_len = 6;
  read_cmd = command_from;
  read_data = text_from;
  remove = memory_unlink;
}

pub platform-IsPlatform : IsPlatform memory platform
platform-IsPlatform = record {
  read_cmd_whole = λ old m. refl;
  read_data_whole = λ old b h. refl;
  remove_file = λ d path {c} h. refl;
}

abbrev pub blank : CmdMsgT
blank = record { cmd = 0; filename = []; size = 0; error = 0 }

abbrev one_file : Bytes → Bytes → Bytes → Option Bytes
one_file path text p = if bytes_eq p path then some text else none

-- The server's disk has the file "a".
abbrev pub server_disk : MemoryDisk
server_disk = record { content = one_file (codes "backup/a") (codes "old"); names = codes "a" ∷ [] }

abbrev pub lab : Lab memory
lab = record {
  disk = server_disk;
  inbox = [];
  send_results = [];
  outbox = [];
  sessions = [];
  client_addr = 0;
  current_tcp_port = 40000;
  server_state = Server.waiting;
  cmd_msg = blank;
  ack_msg = blank;
  data_msg = [];
  overread = false;
  ended = false;
}

-- The user's disk has one file.
abbrev pub lab_client : Bytes → Bytes → LabClient memory
lab_client name text = record {
  disk = record { content = one_file name text; names = [] };
  words = [];
  inbox = [];
  send_results = [];
  outbox = [];
  connections = [];
  streams = [];
  reports = [];
  client_state = Client.waiting;
  in_cmd = [];
  filename = [];
  new_filename = [];
  cmd_msg = blank;
  data_msg = [];
  port_msg = blank;
  junk = blank;
  ended = false;
}

-- A connection that brings "hel" and "lo", and one that takes all that it is given.
abbrev pub session : TcpSession
session = record {
  created = true;
  bound = true;
  listening = true;
  accepted = some (codes "hel" ∷ codes "lo" ∷ []);
}

abbrev pub connection : Connection
connection = record { created = true; connected = true; sends = []; junk = [] }
