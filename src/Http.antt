-- ===== src/Http.antt =====
-- src/server/http_server.cpp: the routes, with the callbacks that
-- `Server::initialize` sets. The HTTP and JSON libraries give a route its parsed request.
pub mod Reads
pub mod Agreement
pub mod Routes
pub mod Tests
use computer_network_lab.Prelude.{
  ℕ, ◌+◌, ◌*◌, Bool, true, false, not, ◌||◌, Option, none, some, List, [], ◌∷◌, ◌++◌, if◌then◌else◌,
  Bytes, codes, length, ltb,
}
use computer_network_lab.Filename.{slash, is_valid_filename}
use computer_network_lab.Paths.{join_path}
use computer_network_lab.Metrics.{
  Metrics, record_http_request, record_request, record_error, record_bytes_received,
  record_send_session, record_send_failure,
}
use computer_network_lab.FileSystem.{
  FileSystem, file_exists, create_directory, delete_file, rename_file,
}

-- `HttpServerConfig`, as far as the routes read it.
pub record HttpServerConfig : Type 0 where
  pub backup_dir : Bytes
  pub max_upload_size : ℕ

-- What the routes share: the disk and the metrics.
pub record HttpState (fs : FileSystem) : Type 0 where
  pub disk : fs.Disk
  pub metrics : Metrics

-- A response: its status, and the text under "error", empty for a success.
pub record HttpResponse : Type 0 where
  pub status : ℕ
  pub error : Bytes

abbrev pub ok : HttpResponse
ok = record { status = 200; error = [] }

abbrev pub failed : ℕ → Bytes → HttpResponse
failed status error = record { status = status; error = error }

-- A file of a multipart form.
pub record FormFile : Type 0 where
  pub filename : Bytes
  pub content : Bytes

-- The body of POST /api/rename: not JSON of the expected types, without a name, or with both.
pub data RenameBody : Type 0 where
  invalid_json missing_name : RenameBody
  both_names : Bytes → Bytes → RenameBody

module _ (fs : FileSystem) (config : HttpServerConfig) where
  abbrev pub H : Type 0
  H = HttpState fs → HttpResponse × HttpState fs

  -- `config_.backupDir + "/" + filename`.
  abbrev pub file_path : Bytes → Bytes
  file_path name = config.backup_dir ++ slash ∷ name

  -- The count of a request on arrival.
  unfoldable pub count_http : Bytes → Bytes → HttpState fs → HttpState fs
  count_http endpoint method s = record s {
    metrics = record_http_request endpoint method s.metrics;
  }

  unfoldable pub refuse : Bytes → Bytes → HttpResponse → H
  refuse name code response s = (response, record s { metrics = record_error name code s.metrics })

  -- The writing of an upload.
  unfoldable pub write_upload : FormFile → H
  write_upload file s =
      let d = (create_directory fs s.disk config.backup_dir).1 in
      elim (fs.create d (file_path file.filename)) [
        | none ↦ (
          failed 500 (codes "Failed to create file"),
          record {
            disk = d;
            metrics =
                record_error (codes "http_upload") (codes "write_error")
                  (record_send_failure s.metrics);
          },
        )
        | some e ↦ (
          ok,
          record {
            disk = fs.append e (file_path file.filename) file.content;
            metrics =
                record_request (codes "http_upload")
                  (record_send_session (record_bytes_received (length file.content) s.metrics));
          },
        )
      ]

  unfoldable pub check_upload : Option FormFile → H
  check_upload none s = (failed 400 (codes "No file provided"), s)
  check_upload (some file) s =
      if not (is_valid_filename file.filename)
      then refuse (codes "http_upload") (codes "invalid_filename")
          (failed 400 (codes "Invalid filename")) s
      else if ltb config.max_upload_size (length file.content)
      then refuse (codes "http_upload") (codes "file_too_large")
          (failed 413 (codes "File too large")) s
      else write_upload file s

  -- POST /api/upload.
  unfoldable pub upload : Option FormFile → H
  upload file s = check_upload file (count_http (codes "/api/upload") (codes "POST") s)

  -- `fileDeleteCallback_` and the response.
  unfoldable pub delete_by_callback : Bytes → H
  delete_by_callback name s =
      let (deleted, d) = delete_file fs s.disk (join_path config.backup_dir name) in
      if deleted
      then (ok, record { disk = d; metrics = record_request (codes "http_delete") s.metrics })
      else refuse (codes "http_delete") (codes "delete_failed")
          (failed 500 (codes "Failed to delete file")) (record s { disk = d })

  unfoldable pub check_delete : Bytes → H
  check_delete name s =
      if not (is_valid_filename name)
      then refuse (codes "http_delete") (codes "invalid_filename")
          (failed 400 (codes "Invalid filename")) s
      else if not (file_exists fs s.disk (file_path name))
      then refuse (codes "http_delete") (codes "not_found") (failed 404 (codes "File not found")) s
      else delete_by_callback name s

  -- DELETE /api/files/NAME.
  unfoldable pub delete_route : Bytes → H
  delete_route name s = check_delete name (count_http (codes "/api/files") (codes "DELETE") s)

  -- `fileRenameCallback_` and the response.
  unfoldable pub rename_by_callback : Bytes → Bytes → H
  rename_by_callback old_name new_name s =
      let (done, d) =
        rename_file fs s.disk (join_path config.backup_dir old_name)
          (join_path config.backup_dir new_name) in
      if done
      then (ok, record { disk = d; metrics = record_request (codes "http_rename") s.metrics })
      else refuse (codes "http_rename") (codes "rename_failed")
          (failed 500 (codes "Failed to rename file")) (record s { disk = d })

  unfoldable pub check_rename : RenameBody → H
  check_rename invalid_json s = (failed 400 (codes "Invalid JSON"), s)
  check_rename missing_name s = (failed 400 (codes "Missing oldName or newName"), s)
  check_rename (both_names old_name new_name) s =
      if not (is_valid_filename old_name) || not (is_valid_filename new_name)
      then refuse (codes "http_rename") (codes "invalid_filename")
          (failed 400 (codes "Invalid filename")) s
      else if not (file_exists fs s.disk (file_path old_name))
      then refuse (codes "http_rename") (codes "not_found")
          (failed 404 (codes "Source file not found")) s
      else if file_exists fs s.disk (file_path new_name)
      then refuse (codes "http_rename") (codes "exists")
          (failed 409 (codes "Target file already exists")) s
      else rename_by_callback old_name new_name s

  -- POST /api/rename.
  unfoldable pub rename_route : RenameBody → H
  rename_route body s = check_rename body (count_http (codes "/api/rename") (codes "POST") s)
