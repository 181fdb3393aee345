-- ===== src/Client/Algos.antt =====
-- sdk/api/algo.go and authenticate.go: calls that ask the control client once. What it answers is a
-- parameter; the status of an answer may be nil.
use ultipa_go_driver.Prelude.{
  Bool, true, false, Option, none, some, Text, Result, ok, err, if◌then◌else◌,
}
use ultipa_go_driver.Prelude.Int.{ℤ}
use ultipa_go_driver.Types.{is_success}
use ultipa_go_driver.Runtime.{Runtime}
use ultipa_go_driver.Config.{RequestConfig, Context}
use ultipa_go_driver.Pool.{Pool}
use ultipa_go_driver.Stream.{Status}
use ultipa_go_driver.Api.{Network}
use ultipa_go_driver.Client.Downloads.{DownloadError, control}

-- The test of the status, where the call makes one.
abbrev tested : Bool → Option Status → Result DownloadError Status
tested checks none = err DownloadError.panics
tested true (some s) = if is_success s.code then ok s else err (DownloadError.refused s.message)
tested false (some s) = ok s

abbrev answered : Bool → Result Text (Option Status) → Result DownloadError Status
answered checks (err m) = err (DownloadError.recv m)
answered checks (ok s) = tested checks s

module _ {R : Type 0} (rt : Runtime) (zone_offset : ℤ) (net : Network R) (p : Pool)
    (config : Option RequestConfig) where
  abbrev ask_control :
      Bool → (Text → Context → Result Text (Option Status)) → Result DownloadError Status × Pool
  unfolding control
  ask_control checks request =
      let (connected, q) = control rt zone_offset net p config in
      (elim connected [ err e ↦ err e | ok (host, ctx) ↦ answered checks (request host ctx) ], q)

  unfoldable pub uninstall_hdc_algo :
      (Text → Context → Text → Text → Result Text (Option Status))
      → Text
      → Text
      → Result DownloadError Status × Pool
  unfolding control
  uninstall_hdc_algo remote algo server = ask_control true (λ host ctx. remote host ctx algo server)

  -- The status is returned, whatever it says.
  unfoldable pub rollback_hdc_algo :
      (Text → Context → Text → Text → Result Text (Option Status))
      → Text
      → Text
      → Result DownloadError Status × Pool
  unfolding control
  rollback_hdc_algo remote algo server = ask_control false (λ host ctx. remote host ctx algo server)

  -- `T` is the type of authentications.
  unfoldable pub authenticate :
      {T : Type 0}
      → (Text → Context → T → Text → Result Text (Option Status))
      → T
      → Text
      → Result DownloadError Status × Pool
  unfolding control
  authenticate remote kind text = ask_control true (λ host ctx. remote host ctx kind text)
