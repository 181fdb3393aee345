-- ===== src/Client/Downloads.antt =====
-- sdk/api/download.file.go: the download of the files of a job. What `DownloadFile` answers is a
-- parameter, a stream of chunks; a callback is a function on a state of the caller's.
use ultipa_go_driver.Prelude.{
  Bool, true, false, ◌||◌, List, [], ◌∷◌, Option, none, some, Text, text_eq, Result, ok, err, ◌>>=◌,
  if◌then◌else◌,
}
use ultipa_go_driver.Prelude.Int.{ℤ}
use ultipa_go_driver.Types.{is_success}
use ultipa_go_driver.Runtime.{Runtime}
use ultipa_go_driver.Config.{RequestConfig, Context, new_context}
use ultipa_go_driver.Pool.{Pool}
use ultipa_go_driver.Stream.{Status}
use ultipa_go_driver.Items.Admin.{Json}
use ultipa_go_driver.Api.{Network, lift, get_client, context_or_error}
use ultipa_go_driver.Client.{ClientError}
use ultipa_go_driver.Client.Session.{pool_session}
use ultipa_go_driver.Client.Readers.{Reader}
use ultipa_go_driver.Client.Files.{get_files_by_job_id}

-- The records of a download, up to `io.EOF` or another error; a status may be nil.
pub data Chunks : Type 0 where
  eof : Chunks
  broken : Text → Chunks
  chunk : Option Status → Text → Chunks → Chunks

pub data DownloadError : Type 0 where
  client : ClientError → DownloadError
  recv refused callback : Text → DownloadError
  panics : DownloadError

-- Why the loop over the records ends: at the end of the stream, or with a `return`, also of nil.
pub data Ended : Type 0 where
  at_end : Ended
  returned : Option DownloadError → Ended

-- The loop of both calls; `failed` is what is returned at a status that is no success.
unfoldable pub read_chunks :
    {C : Type 0}
    → (Text → Option DownloadError)
    → (C → Text → C × Option Text)
    → C
    → Chunks
    → C × Ended
read_chunks failed receive c Chunks.eof = (c, at_end)
read_chunks failed receive c (Chunks.broken m) = (c, returned (some (DownloadError.recv m)))
read_chunks failed receive c (Chunks.chunk none content rest) =
    (c, returned (some DownloadError.panics))
read_chunks failed receive c (Chunks.chunk (some status) content rest) =
    elim (is_success status.code) [
      | false ↦ (c, returned (failed status.message))
      | true ↦ elim ((receive c content).1) [
        | some m ↦ ((receive c content).0, returned (some (DownloadError.callback m)))
        | none ↦ read_chunks failed receive (receive c content).0 rest
      ]
    ]

abbrev read_file :
    {C : Type 0}
    → (Text → Option DownloadError)
    → (C → Text → C × Option Text)
    → C
    → Result Text Chunks
    → C × Ended
unfolding read_chunks
read_file failed receive c (err m) = (c, returned (some (DownloadError.recv m)))
read_file failed receive c (ok chunks) = read_chunks failed receive c chunks

-- `strings.HasSuffix(s, p)`
unfoldable pub has_suffix : Text → Text → Bool
unfolding text_eq
has_suffix [] p = text_eq [] p
has_suffix (x ∷ s) p = text_eq (x ∷ s) p || has_suffix s p

-- The loop over the files: the name becomes that of a file that ends with it.
unfoldable pub full_name : Text → List Text → Text
unfolding has_suffix
full_name name [] = name
full_name name (file ∷ files) = full_name (if has_suffix file name then file else name) files

abbrev ended : Ended → Option DownloadError
ended at_end = none
ended (returned e) = e

abbrev of_client : {A : Type 0} → Result ClientError A → Result DownloadError A
of_client r = lift DownloadError.client r

-- The connection of the control client, and the context.
unfoldable pub control :
    {R : Type 0}
    → Runtime
    → ℤ
    → Network R
    → Pool
    → Option RequestConfig
    → Result DownloadError (Text × Context) × Pool
unfolding get_client new_context
control rt zone_offset net p config =
    let (found, q) = get_client net p config in
    (
      do
        (host, conf) ← lift (λ e. DownloadError.client (ClientError.query e)) found
        ctx ←
            lift (λ e. DownloadError.client (ClientError.query e))
              (context_or_error (new_context rt zone_offset p.config config))
        ok (host, ctx),
      q,
    )

module _ {R J I : Type 0} (rt : Runtime) (zone_offset : ℤ) (net : Network R) (reader : Reader R)
    (json : Json J I) where
  abbrev files_on : Pool → Text → Option RequestConfig → Result ClientError (List Text) × Pool
  unfolding get_files_by_job_id pool_session
  files_on p id config =
      get_files_by_job_id (pool_session rt zone_offset net) reader json id config p

module _ {C : Type 0} (download : Text → Context → Text → Result Text Chunks) where
  -- The loop over the files of `DownloadAllAlgoResultFile`: `return err` at a status that is no
  -- success returns nil.
  unfoldable pub download_files :
      Text × Context
      → (C → Text → Text → C × Option Text)
      → C
      → List Text
      → C × Option DownloadError
  unfolding read_chunks
  download_files to receive c [] = (c, none)
  download_files to receive c (file ∷ files) =
      let (d, end) =
        read_file (λ m. none) (λ b content. receive b content file) c (download to.0 to.1 file) in
      elim end [ returned e ↦ (d, e) | at_end ↦ download_files to receive d files ]

module _ {R J I C : Type 0} (rt : Runtime) (zone_offset : ℤ) (net : Network R) (reader : Reader R)
    (json : Json J I) (download : Text → Context → Text → Result Text Chunks) where
  unfoldable pub download_algo_result_file :
      Pool
      → Text
      → Text
      → Option RequestConfig
      → (C → Text → C × Option Text)
      → C
      → (C × Option DownloadError) × Pool
  unfolding get_files_by_job_id pool_session full_name control read_chunks
  download_algo_result_file p name id config receive c =
      let (found, q) = files_on rt zone_offset net reader json p id config in
      elim (of_client found) [
        | err e ↦ ((c, some e), q)
        | ok files ↦
            let (connected, q2) = control rt zone_offset net q config in
            (
              elim connected [
                | err e ↦ (c, some e)
                | ok (host, ctx) ↦
                    let (d, end) =
                      read_file (λ m. some (DownloadError.refused m)) receive c
                        (download host ctx (full_name name files)) in
                    (d, ended end)
              ],
              q2,
            )
      ]

  -- `base` is `filepath.Base`.
  unfoldable pub download_all_algo_result_file :
      (Text → Text)
      → Pool
      → Text
      → Option RequestConfig
      → (C → Text → Text → C × Option Text)
      → C
      → (C × Option DownloadError) × Pool
  unfolding get_files_by_job_id pool_session control download_files
  download_all_algo_result_file base p id config receive c =
      let (connected, q) = control rt zone_offset net p config in
      elim connected [
        | err e ↦ ((c, some e), q)
        | ok to ↦
            let (found, q2) = files_on rt zone_offset net reader json q id config in
            (
              elim (of_client found) [
                | err e ↦ (c, some e)
                | ok files ↦
                    download_files download to (λ b content file. receive b content (base file)) c
                      files
              ],
              q2,
            )
      ]
