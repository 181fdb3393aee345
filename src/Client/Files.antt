-- ===== src/Client/Files.antt =====
-- sdk/api/download.file.go: the files that a job of an algorithm has written.
pub mod Names
use ultipa_go_driver.Prelude.{
  ℕ, zero, suc, Bool, true, false, ◌||◌, List, [], ◌∷◌, ◌++◌, Option, none, some, Text, bytes,
  text_eq, Result, ok, err, length, lookup, if◌then◌else◌,
}
use ultipa_go_driver.Prelude.Int.{ℤ}
use ultipa_go_driver.Prelude.Decimal.{format_uint}
use ultipa_go_driver.Types.{is_success}
use ultipa_go_driver.Runtime.{Runtime}
use ultipa_go_driver.Config.{RequestConfig, UltipaConfig, Context, new_context}
use ultipa_go_driver.Pool.{Pool}
use ultipa_go_driver.Stream.{Status}
use ultipa_go_driver.Items.Admin.{Json, Job}
use ultipa_go_driver.Api.{Network, ApiError, lift, get_client, context_or_error}
use ultipa_go_driver.Client.{ClientError}
use ultipa_go_driver.Client.Session.{Session, Call, ◌>>=◌, from_result}
use ultipa_go_driver.Client.Readers.{Reader}
use ultipa_go_driver.Client.People.{show_job}

-- The keys of the loop of `getFilesByJobId`: output_file, output_file1, output_file2 and so on.
unfoldable pub file_key : ℕ → Text
unfolding format_uint
file_key zero = bytes "output_file"
file_key (suc i) = bytes "output_file" ++ format_uint (suc i)

abbrev pub also : Text → Option (List Text) → Option (List Text)
also file none = none
also file (some files) = some (file ∷ files)

-- The loop from the key of a number: it ends at the first key that the result of the job lacks.
unfoldable pub files_from : ℕ → ℕ → List (Text × Text) → Option (List Text)
unfolding file_key lookup
files_from zero i result = none
files_from (suc fuel) i result = elim (lookup (file_key i) result) [
  | none ↦ some []
  | some file ↦ also file (files_from fuel (suc i) result)
]

abbrev or_panic : Option (List Text) → Result ClientError (List Text)
or_panic none = err ClientError.panics
or_panic (some []) = err ClientError.no_data
or_panic (some (f ∷ files)) = ok (f ∷ files)

-- As many rounds as the result has entries, and the last.
unfoldable pub files_of_result : Option (List (Text × Text)) → Result ClientError (List Text)
unfolding files_from
files_of_result none = err ClientError.no_data
files_of_result (some result) = or_panic (files_from (suc (length result)) 0 result)

abbrev files_of_jobs : List Job → Result ClientError (List Text)
unfolding files_of_result
files_of_jobs [] = err ClientError.not_found
files_of_jobs (job ∷ jobs) = files_of_result job.result

unfoldable pub get_files_by_job_id :
    {S R J I : Type 0}
    → Session S R
    → Reader R
    → Json J I
    → Text
    → Option RequestConfig
    → Call S (List Text)
unfolding show_job files_of_result
get_files_by_job_id session reader json id config = do
  jobs ← show_job session reader json id config
  from_result (files_of_jobs jobs)
