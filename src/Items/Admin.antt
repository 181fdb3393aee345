-- ===== src/Items/Admin.antt =====
-- sdk/http/dataitem.go: `AsPrivileges`, `AsPolicies`, `AsTasks`, `AsUsers`, `AsJobs`; sdk/structs:
-- privilege.go, policy.go, task.go, user.go, job.go. What `json.Unmarshal` reads into the types of
-- these functions is a parameter.
use ultipa_go_driver.Prelude.{
  List, [], ◌∷◌, ◌++◌, Option, none, some, Text, bytes, Result, ok, err, ◌>>=◌, map, lookup,
}
use ultipa_go_driver.Types.{Value, UltipaTime}
use ultipa_go_driver.Runtime.{Runtime}
use ultipa_go_driver.Rows.{Values}
use ultipa_go_driver.Items.{DataItem, ItemError}
use ultipa_go_driver.Items.Tables.{as_table, table_named, value_at, over_rows, to_kv}
use ultipa_go_driver.Items.System.{text_at, named_kv, is_unset}

-- `J` is any other JSON value; `I` is the TaskInfo of a task.
pub record Json (J I : Type 0) : Type 0 where
  pub unmarshal_texts : Text → Option (List Text)
  pub unmarshal : Text → Option J
  -- `TempTask` and its Param.
  pub unmarshal_task : Text → Option (Text × I × List (Text × Text) × Text)
  pub unmarshal_map : Text → Option (List (Text × Text))
  -- `bytes2result`: nil for the empty text and for what is no object.
  pub unmarshal_result : Text → Option (List (Text × Text))

abbrev or_bad_json : {A : Type 0} → Option A → Result ItemError A
or_bad_json none = err ItemError.bad_json
or_bad_json (some a) = ok a

pub data Privilege : Type 0 where
  graph_privilege system_privilege : Text → Privilege

pub record Job : Type 0 where
  pub id : Text
  pub graph_name : Text
  pub type : Text
  pub query : Text
  pub status : Text
  pub err_msg : Text
  pub result : Option (List (Text × Text))
  pub start_time : Text
  pub end_time : Text
  pub progress : Text

pub record Policy (J : Type 0) : Type 0 where
  pub name : Text
  pub graph_privileges : J
  pub system_privileges : J
  pub property_privileges : J
  pub policies : J

abbrev concat : {A : Type 0} → List (List A) → List A
concat [] = []
concat (xs ∷ rest) = xs ++ concat rest

pub record Task (I : Type 0) : Type 0 where
  pub param : List (Text × Text)
  pub task_info : I
  pub result : List (Text × Text)
  pub error_msg : Text

pub record User (J : Type 0) : Type 0 where
  pub user_name : Text
  pub created_time : Text
  pub graph_privileges : J
  pub system_privileges : J
  pub property_privileges : J
  pub policies : J

module _ {J I : Type 0} (json : Json J I) where
  unfoldable pub privileges_row : List Text → Result ItemError (List Privilege)
  privileges_row values = do
    graph_json ← value_at values 0
    graph ← or_bad_json (json.unmarshal_texts graph_json)
    system_json ← value_at values 1
    system ← or_bad_json (json.unmarshal_texts system_json)
    ok (map graph_privilege graph ++ map system_privilege system)

  unfoldable pub as_privileges : DataItem → Result ItemError (List Privilege)
  unfolding table_named privileges_row
  as_privileges di = do
    t ← table_named (bytes "_privilege" ∷ []) di
    rows ← over_rows privileges_row t
    ok (concat rows)

  unfoldable pub job_row : List Text → Result ItemError Job
  job_row values = do
    id ← value_at values 0
    graph_name ← value_at values 1
    kind ← value_at values 2
    query ← value_at values 3
    status ← value_at values 4
    err_msg ← value_at values 5
    result ← value_at values 6
    start_time ← value_at values 7
    end_time ← value_at values 8
    progress ← value_at values 9
    ok (record {
      id = id;
      graph_name = graph_name;
      type = kind;
      query = query;
      status = status;
      err_msg = err_msg;
      result = json.unmarshal_result result;
      start_time = start_time;
      end_time = end_time;
      progress = progress;
    })

  unfoldable pub as_jobs : DataItem → Result ItemError (List Job)
  unfolding table_named job_row
  as_jobs di = do t ← table_named (bytes "_job" ∷ []) di; over_rows job_row t

  -- `bytesToPolicy`
  unfoldable pub bytes_to_policy : List Text → Result ItemError (Policy J)
  bytes_to_policy (name ∷ graphs ∷ systems ∷ props ∷ names ∷ []) = do
    graph_privileges ← or_bad_json (json.unmarshal graphs)
    system_privileges ← or_bad_json (json.unmarshal systems)
    property_privileges ← or_bad_json (json.unmarshal props)
    policies ← or_bad_json (json.unmarshal names)
    ok (record {
      name = name;
      graph_privileges = graph_privileges;
      system_privileges = system_privileges;
      property_privileges = property_privileges;
      policies = policies;
    })
  bytes_to_policy _ = err ItemError.wrong_length

  -- `AsPolicies`, for which UNSET is an error.
  unfoldable pub as_policies : DataItem → Result ItemError (List (Policy J))
  unfolding table_named bytes_to_policy
  as_policies di = do
    checked ← is_unset di
    t ← table_named (bytes "_policy" ∷ []) di
    over_rows bytes_to_policy t

  unfoldable pub task_row : List Text → Result ItemError (Task I)
  task_row values = do
    task_json ← value_at values 0
    (param_json, task_info, result, error_msg) ← or_bad_json (json.unmarshal_task task_json)
    param ← or_bad_json (json.unmarshal_map param_json)
    ok (record { param = param; task_info = task_info; result = result; error_msg = error_msg })

  unfoldable pub as_tasks : DataItem → Result ItemError (List (Task I))
  unfolding table_named task_row
  as_tasks di = do t ← table_named (bytes "_task" ∷ []) di; over_rows task_row t

  abbrev time_at : Values → Text → Result ItemError UltipaTime
  unfolding lookup
  time_at v key = elim (lookup key v) [
    | none ↦ err ItemError.panics
    | some x ↦ elim x [ Value.date t ↦ ok t | _ ↦ err ItemError.panics ]
  ]

  -- A field of JSON in a row of users.
  abbrev json_at : Values → Text → Result ItemError J
  unfolding text_at
  json_at v key = do s ← text_at v key; or_bad_json (json.unmarshal s)

  -- `show_time` is `UltipaTime.String`, which formats the time inside.
  module _ (show_time : UltipaTime → Text) where
    unfoldable pub user_of : Values → Result ItemError (User J)
    unfolding text_at lookup
    user_of v = do
      name ← text_at v (bytes "username")
      created ← time_at v (bytes "create")
      graph_privileges ← json_at v (bytes "graphPrivileges")
      system_privileges ← json_at v (bytes "systemPrivileges")
      property_privileges ← json_at v (bytes "propertyPrivileges")
      policies ← json_at v (bytes "policies")
      ok (record {
        user_name = name;
        created_time = show_time created;
        graph_privileges = graph_privileges;
        system_privileges = system_privileges;
        property_privileges = property_privileges;
        policies = policies;
      })

    -- `AsUsers`, up to the `return` before its last loop, which never runs.
    unfoldable pub as_users : Runtime → DataItem → Result ItemError (List (User J))
    unfolding user_of table_named as_table to_kv
    as_users rt di = named_kv rt (bytes "_user") user_of di
