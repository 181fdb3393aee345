-- ===== src/Insert/Answers.antt =====
-- sdk/api/insert.nodes.go: for which schemas `InsertNodesBatchAuto` returns a response.
use ultipa_go_driver.Prelude.{
  ◌≡◌, refl, sym, ap, ◌∙◌, inl, inr, Bool, ◌||◌, List, [], ◌∷◌, Option, some, Text, text_eq, Result,
  ok, err, any_of, Bool-cases, Result-cases, bind-ok,
}
use ultipa_go_driver.Types.{ErrorCode, is_success}
use ultipa_go_driver.Config.{RequestConfig}
use ultipa_go_driver.Pool.{Pool}
use ultipa_go_driver.Rows.{EntityRow, RowError, Schema}
use ultipa_go_driver.Insert.{InsertRequestConfig, InsertResponse, InsertError}
use ultipa_go_driver.Insert.Replies.{or_panic}
use ultipa_go_driver.Stream.{Status}
use ultipa_go_driver.Insert.Grouping.{Batch, Grouped, no_groups, group_rows}
use ultipa_go_driver.Insert.Rounds.{ok_inj}
use ultipa_go_driver.Insert.Sending.{
  Sender, AutoResponse, new_auto_response, send_batch, send_batches, insert_batch_auto, note_status,
  note_response, request_in, connect, send_table,
}
use ultipa_go_driver.Insert.Entries.{
  has_entry, has_entry-insert, or_false, or_shuffle, of_schema, any_of-AreNamed,
  group_rows-AreNamed, group_rows-entries,
}
use ultipa_go_driver.Rows.{Node, Edge}
use ultipa_go_driver.Items.Listings.{ListedSchema}
use ultipa_go_driver.Client.{ClientError}
use ultipa_go_driver.Client.Readers.{Reader}
use ultipa_go_driver.Insert.Calls.{
  Inserter, AutoError, insert_listed, config_or_new, listed, nodes_sender, edges_sender,
  insert_nodes_batch_auto, insert_edges_batch_auto,
}
use ultipa_go_driver.Api.{lift}
use ultipa_go_driver.Items.Tables.{DbType}
use ultipa_go_driver.Serial.Zone.{get_location_from_config}
use ultipa_go_driver.Rows.Write.{convert_node_row, convert_edge_row}

note_status-resps :
    (code_name : ErrorCode → Text) (name : Text) (status : Status) (auto : AutoResponse)
    → (note_status code_name name status auto).resps ≡ auto.resps
unfolding note_status
note_status-resps code_name name status auto = elim (Bool-cases (is_success status.code)) [
  | inl e ↦ rw e refl
  | inr e ↦ rw e refl
]

note_response-entries :
    (n : Text) (g : Grouped) (response : InsertResponse) (auto : AutoResponse) (name : Text)
    → has_entry name (note_response n g response auto).resps
      ≡ (text_eq n name || has_entry name auto.resps)
unfolding note_response
note_response-entries n g response auto name = has_entry-insert n name response auto.resps

module _ {R : Type 0} (s : Sender R) (code_name : ErrorCode → Text) (r : RequestConfig)
    (config : InsertRequestConfig) (g : Grouped) where
  send_batch-entries :
      (p : Pool) (b : Batch) (auto next : AutoResponse) (name : Text)
      → (send_batch s code_name p r config g b auto).0 ≡ ok next
      → has_entry name next.resps ≡ (text_eq b.schema.name name || has_entry name auto.resps)
  unfolding send_batch
  send_batch-entries p b auto next name h =
      let (to, e1, h1) = bind-ok ((connect s p r).0) _ next h in
      let (reply, e2, h2) = bind-ok (send_table s p.config r config to _) _ next h1 in
      let (status, e3, h3) = bind-ok (or_panic reply.status) _ next h2 in
      let (response, e4, h4) = bind-ok (s.respond reply) _ next h3 in
      let noted = note_status code_name b.schema.name status auto in
      sym (ap (λ x. has_entry name x.resps) (ok_inj h4))
      ∙ note_response-entries b.schema.name g response noted name
      ∙ ap (λ x. text_eq b.schema.name name || has_entry name x)
          (note_status-resps code_name b.schema.name status auto)

  send_batches-entries :
      (batches : List (Text × Batch)) (p : Pool) (auto last : AutoResponse) (name : Text)
      → (send_batches s code_name p r config g batches auto).0 ≡ ok last
      → has_entry name last.resps ≡ (has_entry name auto.resps || any_of (of_schema name) batches)
  unfolding send_batches
  send_batches-entries [] p auto last name h =
      sym (ap (λ x. has_entry name x.resps) (ok_inj h)) ∙ or_false (has_entry name auto.resps)
  send_batches-entries ((n, b) ∷ batches) p auto last name h =
      elim (Result-cases ((send_batch s code_name p r config g b auto).0)) [
        | inr (e, x) ↦ cc (rw (send_batches, x) at h)
        | inl (next, x) ↦
            send_batches-entries batches (send_batch s code_name p r config g b auto).1 next last
              name (rw (send_batches, x) at h)
            ∙ ap (λ c. c || any_of (of_schema name) batches)
                (send_batch-entries p b auto next name x)
            ∙ or_shuffle (text_eq b.schema.name name) (has_entry name auto.resps)
                (any_of (of_schema name) batches)
      ]

-- A call whose order of the batches leaves none out.
abbrev pub KeepsMembers : (List (Text × Batch) → List (Text × Batch)) → Type 0
KeepsMembers order =
    (p : Text × Batch → Bool) (batches : List (Text × Batch))
    → any_of p (order batches) ≡ any_of p batches

insert_batch_auto_lem :
    {R A : Type 0} (s : Sender R) (code_name : ErrorCode → Text) (p : Pool) (schemas : List Schema)
    (schema_of : A → Text) (convert : Schema → A → Result RowError EntityRow)
    (order : List (Text × Batch) → List (Text × Batch)) (rows : List A)
    (config : InsertRequestConfig) (resps : List (Text × InsertResponse)) (name : Text)
    → KeepsMembers order
    → (insert_batch_auto s code_name p schemas schema_of convert order rows config).0 ≡ ok resps
    → has_entry name resps ≡ any_of (λ a. text_eq (schema_of a) name) rows
unfolding insert_batch_auto
insert_batch_auto_lem s code_name p schemas schema_of convert order rows config resps name keeps h =
    elim (Result-cases (group_rows schemas schema_of convert 0 rows no_groups)) [
      | inr (e, x) ↦ cc (rw (insert_batch_auto, x) at h)
      | inl (g, x) ↦
          let r = request_in config.request_config in
          let all = group_rows-AreNamed schemas schema_of convert 0 rows no_groups g x tt in
          let (auto, e, last) =
            bind-ok ((send_batches s code_name p r config g (order g.batches) new_auto_response).0)
              _ resps (rw (insert_batch_auto, x) at h) in
          sym (ap (has_entry name) (ok_inj last))
          ∙ send_batches-entries s code_name r config g (order g.batches) p new_auto_response auto
              name e
          ∙ keeps (of_schema name) g.batches
          ∙ any_of-AreNamed name g.batches all
          ∙ group_rows-entries schemas schema_of convert 0 rows no_groups g name x
    ]

lift_ok :
    {B : Type 0} (x : Result InsertError B) (b : B) → lift AutoError.inserting x ≡ ok b → x ≡ ok b
lift_ok (ok c) b h = cc
lift_ok (err e) b h = cc

insert_listed_lem :
    {R A : Type 0} (i : Inserter R) (s : Sender R) (schema_of : A → Text)
    (convert : Schema → A → Result RowError EntityRow)
    (found : Result ClientError (List ListedSchema) × Pool) (rows : List A)
    (config : InsertRequestConfig) (resps : List (Text × InsertResponse)) (name : Text)
    → KeepsMembers i.order
    → (insert_listed i s schema_of convert found rows config).0 ≡ ok resps
    → has_entry name resps ≡ any_of (λ a. text_eq (schema_of a) name) rows
unfolding insert_listed
insert_listed_lem i s schema_of convert (err e, p) rows config resps name keeps h = cc
insert_listed_lem i s schema_of convert (ok found, p) rows config resps name keeps h =
    insert_batch_auto_lem s i.code_name p _ schema_of convert i.order rows config resps name keeps
      (lift_ok _ resps h)

-- Where InsertNodesBatchAuto returns without an error, it has a response for each schema that a
-- row names, and for no other, if the order of the batches leaves none out.
pub insert_nodes_batch_auto_lem :
    {R : Type 0} (i : Inserter R) (reader : Reader R) (p : Pool) (rows : List Node)
    (config : Option InsertRequestConfig) (resps : List (Text × InsertResponse)) (name : Text)
    → KeepsMembers i.order
    → (insert_nodes_batch_auto i reader p rows config).0 ≡ ok resps
    → has_entry name resps ≡ any_of (λ a. text_eq a.schema name) rows
unfolding insert_nodes_batch_auto
insert_nodes_batch_auto_lem i reader p rows config resps name keeps h =
    let c = config_or_new config in
    let zone = get_location_from_config i.runtime (some (request_in c.request_config)) in
    insert_listed_lem i (nodes_sender i) (λ (a : Node). a.schema)
      (λ s a. convert_node_row i.runtime zone s (some a)) (listed i reader DbType.db_node p c) rows
      c resps name keeps h

-- Where InsertEdgesBatchAuto returns without an error, it has a response for each schema that a
-- row names, and for no other, if the order of the batches leaves none out.
pub insert_edges_batch_auto_lem :
    {R : Type 0} (i : Inserter R) (reader : Reader R) (p : Pool) (rows : List Edge)
    (config : Option InsertRequestConfig) (resps : List (Text × InsertResponse)) (name : Text)
    → KeepsMembers i.order
    → (insert_edges_batch_auto i reader p rows config).0 ≡ ok resps
    → has_entry name resps ≡ any_of (λ a. text_eq a.schema name) rows
unfolding insert_edges_batch_auto
insert_edges_batch_auto_lem i reader p rows config resps name keeps h =
    let c = config_or_new config in
    let zone = get_location_from_config i.runtime (some (request_in c.request_config)) in
    insert_listed_lem i (edges_sender i) (λ (a : Edge). a.schema)
      (λ s a. convert_edge_row i.runtime zone s (some a)) (listed i reader DbType.db_edge p c) rows
      c resps name keeps h
