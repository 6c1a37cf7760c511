-- ===== src/Http/Agreement.antt =====
-- GET /api/files of src/server/http_server.cpp beside the command LS of src/server/server.cpp.
use computer_network_lab.Prelude.{◌≡◌, List, [], ◌∷◌, ◌++◌, Bytes}
use computer_network_lab.FileSystem.{FileSystem}
use computer_network_lab.Listing.{unpack}
use computer_network_lab.Listing.Roundtrip.{kept}
use computer_network_lab.Server.State.{State, ServerConfig}
use computer_network_lab.Server.Handlers.{handle_ls}

-- LS sends this reply, from which the client prints the names that fit.
abbrev pub IsReply : (fs : FileSystem) → ServerConfig → State fs → List Bytes → Bytes → Type 0
IsReply fs config u names reply =
    ((handle_ls fs config u).1.outbox ≡ u.outbox ++ (u.client_addr, reply) ∷ [])
    × (unpack reply ≡ kept 0 names)
