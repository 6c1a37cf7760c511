-- ===== src/Lib.antt =====
-- Verification of the reliable remote backup system, a server that keeps files for a client (commands
-- and small files come by UDP, large files by TCP), of its first version, and of the two reliable
-- data transfer protocols among the original labs. Paths below are relative to
-- reliable-remote-backup-system/, except those with original-labs/, which are relative to the
-- repository's root.
--
-- The parts, the files that model them, and how they correspond to the code:
-- + Errors: include/common/error_codes.h and src/common/error_codes.cpp. A number that no enumerator
--   names is `other`.
-- + Filename, Paths: the name rules and path helpers of src/common/utils.cpp. A std::string is a list
--   of byte values (Prelude.Text). The POSIX branch of joinPath is taken.
-- + Message: include/protocol/message.h. The packed structs are written out as bytes, little endian.
-- + Listing: the packing loop of Server::handleLs and the walk of Client::handleLs.
-- + Metrics: the counters of src/common/metrics.cpp, each modulo 2^64, and in Metrics/Latency the
--   latency statistics of a command over a parameter for double.
-- + FileSystem: src/common/file_utils.cpp over a record of system calls, a parameter. IsPosix names
--   what the theorems use of their documented behaviour, and FileSystem/Memory is a disk that has it.
--   + Http: the routes of src/server/http_server.cpp, with the callbacks that Server::initialize sets. A
--   response is its status and its error text, or, in Http/Reads, the fields of its JSON.
-- + Client: src/client/client.cpp. Client is the Client object with its surroundings: the disk, the
--   datagrams and answers still to come, the results of the calls on sockets, and what was sent.
--   Transfer has sendSmallFile and sendLargeFile, Commands the handlers, Input the command line. In
--   Delivery and Dialogue the client and the server meet.
-- + Server: src/server/server.cpp. State is the Server object with its surroundings: the
--   disk, the datagrams still to come, the results of the calls on sockets, and what was sent.
--   Transfer has receiveSmallFile and receiveLargeFile, Handlers the commands and processCommand,
--   Loop initialize and run. Each operation is a function from a state to a result and a state.
-- + Labs: original-labs/server.cc and original-labs/client.cc, the first version of the program. Lab
--   has the variables of the server's main with its surroundings, LabClient those of the client's.
--   Each case of the server's two switch statements is a function in Labs/Server/Commands
--   (Labs/Server/Loop for the loop), each state of the client one in Labs/Client/Commands or
--   Labs/Client/Sending. What a receive finds is given in turn: nothing, or a whole message of one of
--   the two kinds. Labs/Dialogue has the two sides together, Labs/Agreement the first server beside
--   the later one.
-- + Strings: split and generateRequestId of src/common/utils.cpp.
-- + Transport: original-labs/gbn.c and original-labs/stable.c, each a sender A and a receiver B.
--   Packet has the messages, the checksum and the calls into the emulator, Sides the sender's
--   variables, both for the two files. GoBackN and SelectiveRepeat have A_output, A_input,
--   A_packet_time_rinterrupt and B_input as functions on a side's variables; a side's calls are
--   appended to its log. Their modules System put both sides on a network as a step relation.
--   Emulator has the event list and the main loop, which performs the calls that a side adds to its
--   log, over the interface Protocol; the modules Program of the two protocols fill it.
--
-- How they interact: run receives a command, counts it in Metrics, and calls processCommand, whose
-- handlers check names with Filename, form paths with Paths, use FileSystem and answer with Message.
-- Every receive overwrites the client address, which the handlers hold by reference, so a reply goes
-- to the sender of the last datagram; the model keeps this. A proof about all commands goes through
-- Server/Keeps, Server/Walk and Server/Walk/Commands: a relation on states that holds across each
-- system call holds across each command.
--
-- In Transport the two protocols meet the same buffer of messages (Messages) and the same checksum,
-- and the emulator runs the sides of either; a round of its main loop is a step of the relation in
-- GoBackN/System or SelectiveRepeat/System (Emulator/Network has what that needs of a protocol).
--
-- In Labs the transfers over TCP use the loops of the later program (Server/Transfer,
-- Client/Transfer), which are the same, and with them the theorems on these loops.
--
-- Bounds and fuel: the main loops, the walk over a listing and the client's sending loop run on fuel:
-- the number of arrivals, the length of the buffer, the given results of send and the file's size;
-- each round uses at least one of these. The model's run also ends when nothing more arrives, where
-- the program would wait. The TCP port is 16 bits wide, the counters 64; file sizes in messages are
-- 32 bits wide where a theorem needs it. message.h of the original labs is not in the repository: the
-- sizes of its arrays are parameters (Platform), and its numbers are taken to be wide enough. In
-- Transport a loop that slides a window runs on the window size or the number of packets in it, one
-- that sends waiting messages or delivers packets on the window size. A sequence number is unbounded,
-- as the file's comment says; the checksum's sum has 32 bits. The buffer has 5000 places. Selective
-- repeat is modelled for windows of at most 8 places, the size of the receiver's arrays, and the
-- channel pattern has at least one letter.
--
-- Assumed: a path names one file (no links, no sockets, which the bit test of fileExists takes for
-- files, no other process in the directory, and different path texts for different files; a rename
-- moves one file, as the handlers only rename what fileExists found), what is there can be opened for
-- reading, a write on an open file succeeds, and a failed sendto sends nothing.
--
-- Not modelled: the logger, the HTTP thread, the map of the latency statistics and their timers,
-- Windows, the command lines and the set-up of the sockets, a directory that the first client is told
-- to send, and the input, output and statistics of the two emulators; stable.c's emulator is a copy
-- of gbn.c's which also counts the lost and the corrupted packets a second time.
pub mod Prelude
pub mod Errors
pub mod Filename
pub mod Paths
pub mod Message
pub mod Listing
pub mod Metrics
pub mod FileSystem
pub mod Server
pub mod Client
pub mod Http
pub mod Labs
pub mod Strings
pub mod Transport
pub mod Tests
