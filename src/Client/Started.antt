-- ===== src/Client/Started.antt =====
-- sdk/http/job.go: the job that a response tells of.
use ultipa_go_driver.Prelude.{
  List, [], ◌∷◌, Option, none, some, Text, bytes, Result, ok, err, ◌>>=◌, lookup, if◌then◌else◌,
}
use ultipa_go_driver.Prelude.Decimal.{format_uint}
use ultipa_go_driver.Types.{Value}
use ultipa_go_driver.Stream.{Status, Statistic}
use ultipa_go_driver.Stream.Response.{Response, response_is_success}
use ultipa_go_driver.Rows.{Values}
use ultipa_go_driver.Items.{ItemError}
use ultipa_go_driver.Items.Tables.{GoTable, as_table, to_kv}
use ultipa_go_driver.Client.{ClientError}
use ultipa_go_driver.Client.Readers.{Reader, read_item}

pub record JobResponse : Type 0 where
  pub job_id : Text
  pub statistic : Option Statistic
  pub status : Status

-- A nil table is followed, the first row taken, and its number asserted to be a uint32.
abbrev kv_of : Option GoTable → Result ItemError (List Values)
unfolding to_kv
kv_of none = err ItemError.panics
kv_of (some t) = to_kv t

abbrev number_of : Option Value → Result ItemError Text
unfolding format_uint
number_of (some (Value.uint32 n)) = ok (format_uint n)
number_of _ = err ItemError.panics

unfoldable pub job_id_of : List Values → Result ItemError Text
unfolding lookup format_uint
job_id_of [] = err ItemError.panics
job_id_of (row ∷ rows) = number_of (lookup (bytes "new_job_id") row)

module _ {R : Type 0} (reader : Reader R) where
  -- `GetJobResponseFromUqlResponse`: a response that is no success has no job, and is no error.
  unfoldable pub get_job_response : Response R → Result ClientError JobResponse
  unfolding as_table kv_of job_id_of response_is_success
  get_job_response r =
      if response_is_success r
      then (do
        t ← read_item (as_table reader.runtime (reader.alias r (bytes "result")))
        rows ← read_item (kv_of t)
        id ← read_item (job_id_of rows)
        ok (record { job_id = id; statistic = r.statistic; status = r.status }))
      else ok (record { job_id = []; statistic = r.statistic; status = r.status })
