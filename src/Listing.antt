-- ===== src/Listing.antt =====
-- The LS reply: `Server::handleLs` (server/server.cpp) packs the file names into one data message,
-- and `Client::handleLs` (client/client.cpp) walks it.
pub mod Roundtrip
use computer_network_lab.Prelude.{
  ℕ, zero, suc, ◌+◌, List, [], ◌∷◌, ◌++◌, ltb, ◌==◌, if◌then◌else◌, Bytes, length, take, drop,
  get_or,
}
use computer_network_lab.Message.{data_buf_len, new_data_msg, c_string}

-- `strcpy(data + offset, name)`: the name's bytes and a NUL.
unfoldable pub write_string : Bytes → ℕ → Bytes → Bytes
write_string buffer offset name =
    take offset buffer ++ name ++ 0 ∷ drop (offset + suc (length name)) buffer

-- The server's loop over the names; a name that does not fit is left out.
unfoldable pub pack_from : List Bytes → ℕ → Bytes → Bytes
pack_from [] offset buffer = buffer
pack_from (name ∷ names) offset buffer =
    let fits = pack_from names (offset + length name + 1) (write_string buffer offset name) in
    let skips = pack_from names offset buffer in
    if ltb (offset + length name + 1) data_buf_len then fits else skips

-- The reply of `Server::handleLs`.
unfoldable pub pack : List Bytes → Bytes
pack names = pack_from names 0 new_data_msg

-- The walk of `Client::handleLs`: names up to an empty one. The fuel bounds the number of names.
unfoldable pub unpack_from : ℕ → Bytes → List Bytes
unpack_from zero b = []
unpack_from (suc fuel) b =
    let rest = unpack_from fuel (drop (suc (length (c_string b))) b) in
    if get_or b 0 0 == 0 then [] else c_string b ∷ rest

-- Every name takes two bytes at least, so the buffer's length is enough fuel.
unfoldable pub unpack : Bytes → List Bytes
unpack b = unpack_from (length b) b
