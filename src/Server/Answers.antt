-- ===== src/Server/Answers.antt =====
-- server/server.cpp: which answers to FILE_EXISTS are no confirmation.
use computer_network_lab.Prelude.{ℕ, ◌≡◌, ◌≢◌, ◌⊎◌, refl, inl, inr, false, arith, ==_iff}
use computer_network_lab.Message.{CmdMsg, Command, command_code, command_of, get_command}
use computer_network_lab.Server.Handlers.{confirms}

-- The number of another command, or of an error. OVERWRITE is 10.
abbrev pub IsRefusal : CmdMsg → Type 0
IsRefusal m = (m.cmd ≢ 10) ⊎ (m.error ≢ 0)

command_code-command_of : (n : ℕ) → command_code (command_of n) ≡ n
unfolding command_code command_of
command_code-command_of n = ground arith

overwrite_code : command_code Command.overwrite ≡ 10
unfolding command_code
overwrite_code = refl

pub confirms-false : (m : CmdMsg) → IsRefusal m → confirms m ≡ false
unfolding confirms get_command
confirms-false m (inl h) =
    rw (command_code-command_of m.cmd, overwrite_code) (let k = ==_iff m.cmd 10 in ground arith)
confirms-false m (inr h) =
    rw (command_code-command_of m.cmd, overwrite_code) (let k = ==_iff m.error 0 in ground arith)
