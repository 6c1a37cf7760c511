-- ===== src/Http/Tests.antt =====
-- The routes' theorems on a disk that is kept in memory.
use computer_network_lab.Prelude.{◌≡◌, ◌≢◌, ◌⊎◌, refl, none, some, [], ◌∷◌, codes}
use computer_network_lab.FileSystem.Memory.{memory, memory-IsPosix, update}
use computer_network_lab.Server.State.{State, default_config}
use computer_network_lab.Server.Loop.{new_server}
use computer_network_lab.Metrics.{new_metrics, record_send_session, record_send_failure}
use computer_network_lab.Http.{
  HttpServerConfig, HttpState, FormFile, both_names, file_path, rename_route,
}
use computer_network_lab.Http.Reads.{dashboard}
use computer_network_lab.Http.Routes.{IsMoved, rename_route_cases}

abbrev settings : HttpServerConfig
settings = record { backup_dir = codes "backup"; max_upload_size = 100 }

-- The file `a` is there.
abbrev state : HttpState memory
state = record {
  disk = record {
    content = update (λ p. none) (codes "backup/a") (some (codes "first"));
    names = codes "a" ∷ [];
  };
  metrics = new_metrics;
}

abbrev form : FormFile
form = record { filename = codes "c"; content = codes "new" }

rename_route_cases_example :
    let t = rename_route memory settings (both_names (codes "a") (codes "c")) state in
    ((t.0.status ≡ 200)
      × IsMoved memory
          (file_path memory settings (codes "a"))
          (file_path memory settings (codes "c"))
          state.disk
          t.1.disk)
    ⊎ ((t.0.status ≢ 200) × (t.1.disk ≡ state.disk))
rename_route_cases_example =
    rename_route_cases memory memory-IsPosix settings (codes "a") (codes "c") state (λ e. cc) refl

-- The UDP server on the same disk.
abbrev udp_state : State memory
udp_state = record (new_server memory default_config state.disk [] [] []) { client_addr = 7 }

-- After one upload that was stored and two that failed, the number from which the success rate is
-- computed has wrapped around.
rate_wraps :
    (dashboard
      (record_send_failure (record_send_failure (record_send_session new_metrics)))).succeeded
    ≡ 18446744073709551615
unfolding dashboard record_send_failure record_send_session
rate_wraps = refl
