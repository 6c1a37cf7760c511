-- ===== src/Errors.antt =====
-- common/error_codes.h and common/error_codes.cpp: the error codes, their numbers and their texts.
-- `other` is a value of the enum's type uint16_t that no enumerator names.
pub mod Codes
use computer_network_lab.Prelude.{
  ℕ, zero, suc, ◌+◌, ◌/◌, ◌%◌, Bool, true, false, [], ◌∷◌, ◌++◌, ◌==◌, if◌then◌else◌, Bytes, codes,
}

pub data ErrorCode : Type 0 where
  success : ErrorCode
  unknown_error : ErrorCode
  invalid_argument : ErrorCode
  timeout : ErrorCode
  cancelled : ErrorCode
  file_not_found : ErrorCode
  file_exists : ErrorCode
  file_open_error : ErrorCode
  file_read_error : ErrorCode
  file_write_error : ErrorCode
  file_delete_error : ErrorCode
  file_rename_error : ErrorCode
  invalid_filename : ErrorCode
  path_traversal_attempt : ErrorCode
  file_too_large : ErrorCode
  directory_not_found : ErrorCode
  directory_create_error : ErrorCode
  directory_read_error : ErrorCode
  socket_create_error : ErrorCode
  socket_bind_error : ErrorCode
  socket_listen_error : ErrorCode
  socket_accept_error : ErrorCode
  socket_connect_error : ErrorCode
  socket_send_error : ErrorCode
  socket_recv_error : ErrorCode
  connection_closed : ErrorCode
  connection_timeout : ErrorCode
  invalid_command : ErrorCode
  invalid_message : ErrorCode
  unexpected_response : ErrorCode
  protocol_error : ErrorCode
  server_busy : ErrorCode
  server_shutdown : ErrorCode
  other : ℕ → ErrorCode

-- `toNetworkError`: the enumerator's number.
unfoldable pub to_network_error : ErrorCode → ℕ
to_network_error success = 0
to_network_error unknown_error = 1
to_network_error invalid_argument = 2
to_network_error timeout = 3
to_network_error cancelled = 4
to_network_error file_not_found = 100
to_network_error file_exists = 101
to_network_error file_open_error = 102
to_network_error file_read_error = 103
to_network_error file_write_error = 104
to_network_error file_delete_error = 105
to_network_error file_rename_error = 106
to_network_error invalid_filename = 107
to_network_error path_traversal_attempt = 108
to_network_error file_too_large = 109
to_network_error directory_not_found = 200
to_network_error directory_create_error = 201
to_network_error directory_read_error = 202
to_network_error socket_create_error = 300
to_network_error socket_bind_error = 301
to_network_error socket_listen_error = 302
to_network_error socket_accept_error = 303
to_network_error socket_connect_error = 304
to_network_error socket_send_error = 305
to_network_error socket_recv_error = 306
to_network_error connection_closed = 307
to_network_error connection_timeout = 308
to_network_error invalid_command = 400
to_network_error invalid_message = 401
to_network_error unexpected_response = 402
to_network_error protocol_error = 403
to_network_error server_busy = 500
to_network_error server_shutdown = 501
to_network_error (other n) = n

-- `fromNetworkError`: a cast, so a number that names no enumerator is kept.
unfoldable pub from_network_error : ℕ → ErrorCode
from_network_error n =
    if n == 0
    then success
    else if n == 1
    then unknown_error
    else if n == 2
    then invalid_argument
    else if n == 3
    then timeout
    else if n == 4
    then cancelled
    else if n == 100
    then file_not_found
    else if n == 101
    then file_exists
    else if n == 102
    then file_open_error
    else if n == 103
    then file_read_error
    else if n == 104
    then file_write_error
    else if n == 105
    then file_delete_error
    else if n == 106
    then file_rename_error
    else if n == 107
    then invalid_filename
    else if n == 108
    then path_traversal_attempt
    else if n == 109
    then file_too_large
    else if n == 200
    then directory_not_found
    else if n == 201
    then directory_create_error
    else if n == 202
    then directory_read_error
    else if n == 300
    then socket_create_error
    else if n == 301
    then socket_bind_error
    else if n == 302
    then socket_listen_error
    else if n == 303
    then socket_accept_error
    else if n == 304
    then socket_connect_error
    else if n == 305
    then socket_send_error
    else if n == 306
    then socket_recv_error
    else if n == 307
    then connection_closed
    else if n == 308
    then connection_timeout
    else if n == 400
    then invalid_command
    else if n == 401
    then invalid_message
    else if n == 402
    then unexpected_response
    else if n == 403
    then protocol_error
    else if n == 500
    then server_busy
    else if n == 501
    then server_shutdown
    else other n

unfoldable pub is_success : ErrorCode → Bool
is_success success = true
is_success _ = false

unfoldable pub error_code_to_string : ErrorCode → Bytes
error_code_to_string success = codes "SUCCESS"
error_code_to_string unknown_error = codes "UNKNOWN_ERROR"
error_code_to_string invalid_argument = codes "INVALID_ARGUMENT"
error_code_to_string timeout = codes "TIMEOUT"
error_code_to_string cancelled = codes "CANCELLED"
error_code_to_string file_not_found = codes "FILE_NOT_FOUND"
error_code_to_string file_exists = codes "FILE_EXISTS"
error_code_to_string file_open_error = codes "FILE_OPEN_ERROR"
error_code_to_string file_read_error = codes "FILE_READ_ERROR"
error_code_to_string file_write_error = codes "FILE_WRITE_ERROR"
error_code_to_string file_delete_error = codes "FILE_DELETE_ERROR"
error_code_to_string file_rename_error = codes "FILE_RENAME_ERROR"
error_code_to_string invalid_filename = codes "INVALID_FILENAME"
error_code_to_string path_traversal_attempt = codes "PATH_TRAVERSAL_ATTEMPT"
error_code_to_string file_too_large = codes "FILE_TOO_LARGE"
error_code_to_string directory_not_found = codes "DIRECTORY_NOT_FOUND"
error_code_to_string directory_create_error = codes "DIRECTORY_CREATE_ERROR"
error_code_to_string directory_read_error = codes "DIRECTORY_READ_ERROR"
error_code_to_string socket_create_error = codes "SOCKET_CREATE_ERROR"
error_code_to_string socket_bind_error = codes "SOCKET_BIND_ERROR"
error_code_to_string socket_listen_error = codes "SOCKET_LISTEN_ERROR"
error_code_to_string socket_accept_error = codes "SOCKET_ACCEPT_ERROR"
error_code_to_string socket_connect_error = codes "SOCKET_CONNECT_ERROR"
error_code_to_string socket_send_error = codes "SOCKET_SEND_ERROR"
error_code_to_string socket_recv_error = codes "SOCKET_RECV_ERROR"
error_code_to_string connection_closed = codes "CONNECTION_CLOSED"
error_code_to_string connection_timeout = codes "CONNECTION_TIMEOUT"
error_code_to_string invalid_command = codes "INVALID_COMMAND"
error_code_to_string invalid_message = codes "INVALID_MESSAGE"
error_code_to_string unexpected_response = codes "UNEXPECTED_RESPONSE"
error_code_to_string protocol_error = codes "PROTOCOL_ERROR"
error_code_to_string server_busy = codes "SERVER_BUSY"
error_code_to_string server_shutdown = codes "SERVER_SHUTDOWN"
error_code_to_string (other n) = codes "UNKNOWN"

-- `std::to_string` of an int that is not negative: the decimal digits, with enough rounds given.
decimal_loop : ℕ → ℕ → Bytes → Bytes
decimal_loop zero n out = out
decimal_loop (suc fuel) n out =
    let more = decimal_loop fuel (n / 10) ((b'0' + n % 10) ∷ out) in
    if n / 10 == 0 then (b'0' + n % 10) ∷ out else more

decimal : ℕ → Bytes
unfolding decimal_loop
decimal n = decimal_loop (suc n) n []

unfoldable pub get_error_description : ErrorCode → Bytes
unfolding decimal
get_error_description success = codes "Operation completed successfully"
get_error_description unknown_error = codes "An unknown error occurred"
get_error_description invalid_argument = codes "Invalid argument provided"
get_error_description timeout = codes "Operation timed out"
get_error_description cancelled = codes "Operation was cancelled"
get_error_description file_not_found = codes "File not found"
get_error_description file_exists = codes "File already exists"
get_error_description file_open_error = codes "Failed to open file"
get_error_description file_read_error = codes "Failed to read file"
get_error_description file_write_error = codes "Failed to write file"
get_error_description file_delete_error = codes "Failed to delete file"
get_error_description file_rename_error = codes "Failed to rename file"
get_error_description invalid_filename = codes "Invalid filename"
get_error_description path_traversal_attempt = codes "Path traversal attempt detected"
get_error_description file_too_large = codes "File is too large"
get_error_description directory_not_found = codes "Directory not found"
get_error_description directory_create_error = codes "Failed to create directory"
get_error_description directory_read_error = codes "Failed to read directory"
get_error_description socket_create_error = codes "Failed to create socket"
get_error_description socket_bind_error = codes "Failed to bind socket"
get_error_description socket_listen_error = codes "Failed to listen on socket"
get_error_description socket_accept_error = codes "Failed to accept connection"
get_error_description socket_connect_error = codes "Failed to connect to server"
get_error_description socket_send_error = codes "Failed to send data"
get_error_description socket_recv_error = codes "Failed to receive data"
get_error_description connection_closed = codes "Connection closed by peer"
get_error_description connection_timeout = codes "Connection timed out"
get_error_description invalid_command = codes "Invalid command received"
get_error_description invalid_message = codes "Invalid message format"
get_error_description unexpected_response = codes "Unexpected response from server"
get_error_description protocol_error = codes "Protocol error"
get_error_description server_busy = codes "Server is busy"
get_error_description server_shutdown = codes "Server is shutting down"
get_error_description (other n) = codes "Unknown error code: " ++ decimal n
