-- ===== src/Client/People.antt =====
-- sdk/api/user.go, policy.go, privilege.go, job.go: the calls on users, policies, privileges and
-- jobs. What `ClearJob` and the like answer is the response itself.
use ultipa_go_driver.Prelude.{
  List, [], ◌∷◌, ◌++◌, Option, none, some, Text, bytes, text_eq, Result, ok, err, if◌then◌else◌,
}
use ultipa_go_driver.Types.{UltipaTime}
use ultipa_go_driver.Config.{RequestConfig}
use ultipa_go_driver.Stream.Response.{Response}
use ultipa_go_driver.Items.Admin.{
  Json, User, Policy, Privilege, Job, as_users, as_policies, as_privileges, as_jobs,
}
use ultipa_go_driver.Client.{ClientError, given, in_quotes}
use ultipa_go_driver.Client.Session.{Session, Call, ◌>>=◌, from_result, uql}
use ultipa_go_driver.Client.Readers.{Reader, read_item}
use ultipa_go_driver.Client.Listings.{ask}
use ultipa_go_driver.Client.Accounts.{
  Printer, NewUser, NewPolicy, to_create_user_uql, to_alter_user_uql, to_create_policy_uql,
  to_alter_policy_uql,
}

-- `f()` of one name in quotes, or of none.
abbrev call_of : Text → Text → Text
call_of f name = f ++ (bytes "(" ++ (in_quotes name ++ bytes ")"))

abbrev job_call : Text → Text → Text
job_call f id = f ++ (bytes "(" ++ (id ++ bytes ")"))

-- The first of a list, where an index panics on the empty one.
abbrev first_or_panic : {A : Type 0} → List A → Result ClientError A
first_or_panic [] = err ClientError.panics
first_or_panic (a ∷ rest) = ok a

abbrev first_or_nil : {A : Type 0} → List A → Result ClientError (Option A)
first_or_nil [] = ok none
first_or_nil (a ∷ rest) = ok (some a)

-- The id of `ClearJob`: the star is put in quotes.
abbrev job_id : Text → Text
unfolding text_eq
job_id id = if text_eq id (bytes "*") then in_quotes (bytes "*") else id

module _ {S R J I : Type 0} (session : Session S R) (reader : Reader R) (json : Json J I) where
  unfoldable pub show_user : (UltipaTime → Text) → Option RequestConfig → Call S (List (User J))
  unfolding ask as_users
  show_user show_time config =
      ask session reader config (bytes "show().user()")
        (λ r. read_item (as_users json show_time reader.runtime (reader.alias r (bytes "_user"))))

  -- A response without users panics.
  unfoldable pub get_user : (UltipaTime → Text) → Text → Option RequestConfig → Call S (User J)
  unfolding ask as_users given
  get_user show_time name config = do
    checked ← from_result (given (name ∷ []))
    users ←
        ask session reader config (call_of (bytes "show().user") name)
          (λ r. read_item (as_users json show_time reader.runtime (reader.alias r (bytes "_user"))))
    from_result (first_or_panic users)

  unfoldable pub show_policy : Option RequestConfig → Call S (List (Policy J))
  unfolding ask as_policies
  show_policy config =
      ask session reader config (bytes "show().policy()")
        (λ r. read_item (as_policies json (reader.alias r (bytes "_policy"))))

  unfoldable pub get_policy : Text → Option RequestConfig → Call S (Option (Policy J))
  unfolding ask as_policies given
  get_policy name config = do
    checked ← from_result (given (name ∷ []))
    policies ←
        ask session reader config (call_of (bytes "show().policy") name)
          (λ r. read_item (as_policies json (reader.alias r (bytes "_policy"))))
    from_result (first_or_nil policies)

  unfoldable pub show_privilege : Option RequestConfig → Call S (List Privilege)
  unfolding ask as_privileges
  show_privilege config =
      ask session reader config (bytes "show().privilege()")
        (λ r. read_item (as_privileges json (reader.alias r (bytes "_privilege"))))

  unfoldable pub show_job : Text → Option RequestConfig → Call S (List Job)
  unfolding ask as_jobs
  show_job id config =
      ask session reader config (job_call (bytes "show().job") id)
        (λ r. read_item (as_jobs json (reader.alias r (bytes "_job"))))

module _ {S R : Type 0} (session : Session S R) where
  unfoldable pub clear_job : Text → Option RequestConfig → Call S (Response R)
  unfolding uql text_eq
  clear_job id config = uql session config (job_call (bytes "clear().job") (job_id id))

  unfoldable pub stop_job : Text → Option RequestConfig → Call S (Response R)
  unfolding uql
  stop_job id config = uql session config (job_call (bytes "stop().job") id)

  unfoldable pub drop_user : Text → Option RequestConfig → Call S (Response R)
  unfolding uql
  drop_user name config = uql session config (call_of (bytes "drop().user") name)

  unfoldable pub drop_policy : Text → Option RequestConfig → Call S (Response R)
  unfolding uql
  drop_policy name config = uql session config (call_of (bytes "drop().policy") name)

  module _ {G : Type 0} (printer : Printer G) where
    unfoldable pub create_user : NewUser G → Option RequestConfig → Call S (Response R)
    unfolding uql to_create_user_uql
    create_user u config = uql session config (to_create_user_uql printer u)

    unfoldable pub alter_user : NewUser G → Option RequestConfig → Call S (Response R)
    unfolding uql to_alter_user_uql
    alter_user u config = uql session config (to_alter_user_uql printer u)

    unfoldable pub create_policy : Option (NewPolicy G) → Option RequestConfig → Call S (Response R)
    unfolding uql given to_create_policy_uql
    create_policy none config = from_result (err ClientError.missing)
    create_policy (some p) config = do
      checked ← from_result (given (p.name ∷ []))
      uql session config (to_create_policy_uql printer p)

    unfoldable pub alter_policy : NewPolicy G → Option RequestConfig → Call S (Response R)
    unfolding uql to_alter_policy_uql
    alter_policy p config = uql session config (to_alter_policy_uql printer p)
