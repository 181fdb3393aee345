-- ===== src/Stream/Collect.antt =====
-- sdk/http/response.query.go: what is left of a stream that is read to its end.
use ultipa_go_driver.Prelude.{
  ◌≡◌, refl, ◌∙◌, ap, Bool, true, false, List, [], ◌∷◌, ◌++◌, Option, none, some, Text, ok,
  if◌then◌else◌, any_of, All, sym, map,
}
use mathlib.Core.List.{append-nil, append_assoc}
use ultipa_go_driver.Types.{ResultType, ErrorCode, is_success}
use ultipa_go_driver.Reply.{Reply, return, merge_uql_reply}
use ultipa_go_driver.Reply.Header.{names, distinct}
use ultipa_go_driver.Reply.Round.{IsWhole, rows_in}
use ultipa_go_driver.Reply.Merge.{merge_uql_reply-IsWhole}
use ultipa_go_driver.Stream.{
  Status, empty_status, Statistic, PlanNode, QueryRecord, Incoming, eof, incoming,
}
use ultipa_go_driver.Stream.Statistics.{parse_statistic, parse_explain_plan}
use ultipa_go_driver.Stream.Response.{
  Response, new_response, keep_statistic, keep_plan, keep_reply, keep_status, take_record,
  alias_names, with_alias_list, read_records, new_uql_response, response_is_success,
}

-- A status that lets the loop go on.
abbrev pub goes_on : Option Status → Bool
goes_on none = true
goes_on (some s) = is_success s.code

keep_status-goes_on :
    (old : Status) (new : Option Status)
    → is_success old.code ≡ true
    → goes_on new ≡ true
    → is_success (keep_status old new).code ≡ true
unfolding keep_status
keep_status-goes_on old none h k = h
keep_status-goes_on old (some new) h k = k

on_success :
    {A : Type 0} (code : ErrorCode) (x y : A)
    → is_success code ≡ true
    → (elim (is_success code) as (λ _. A) [ true ↦ x | false ↦ y ]) ≡ x
on_success ErrorCode.success x y h = refl
on_success ErrorCode.permission_denied x y h = cc
on_success (ErrorCode.other n) x y h = cc

module _ {R : Type 0} where
  -- The records, and then what follows them.
  unfoldable pub incoming_all : List (QueryRecord R) → Incoming R → Incoming R
  incoming_all [] rest = rest
  incoming_all (r ∷ rs) rest = incoming r (incoming_all rs rest)

  abbrev pub IsGood : QueryRecord R → Type 0
  IsGood r = IsWhole r.reply × (goes_on r.status ≡ true)

  -- The rows of all records under a result type and an alias, in order.
  unfoldable pub all_rows : ResultType → Text → List (QueryRecord R) → List R
  all_rows t m [] = []
  all_rows t m (r ∷ rs) = rows_in t r.reply m ++ all_rows t m rs

  -- The response in the middle of the loop.
  abbrev so_far : Reply R → Status → Statistic → List PlanNode → Response R
  so_far reply status statistic plan = record {
    reply = some reply;
    status = status;
    statistic = some statistic;
    explain_plan = some plan;
    alias_list = [];
  }

  no_more : (b : Bool) (xs : List R) → xs ≡ (if b then xs ++ [] else xs)
  no_more true xs = sym (append-nil xs)
  no_more false xs = refl

  one_more :
      (b : Bool) (xs ys zs : List R)
      → (if b then (if b then xs ++ ys else xs) ++ zs else (if b then xs ++ ys else xs))
        ≡ (if b then xs ++ (ys ++ zs) else xs)
  one_more true xs ys zs = append_assoc xs ys zs
  one_more false xs ys zs = refl

  -- One round of the loop whose record does not end it.
  read_records-incoming :
      (a b : Response R) (r : QueryRecord R) (rest : Incoming R)
      → take_record a r ≡ ok b
      → is_success b.status.code ≡ true
      → read_records a (incoming r rest) ≡ read_records b rest
  unfolding read_records
  read_records-incoming a b r rest e h =
      rw (read_records, e) (on_success b.status.code (read_records b rest) (ok b) h)

  take_record-so_far :
      (r0 r1 : Reply R) (st : Status) (s : Statistic) (plan : List PlanNode) (r : QueryRecord R)
      → merge_uql_reply r0 r.reply ≡ return r1
      → take_record (so_far r0 st s plan) r ≡ ok (so_far r1 (keep_status st r.status) s plan)
  unfolding take_record keep_statistic keep_reply keep_plan
  take_record-so_far r0 r1 st s plan r e = rw e refl

  take_record-new_response :
      (s : Statistic) (r : QueryRecord R)
      → parse_statistic r.statistics ≡ ok s
      → take_record new_response r
        ≡ ok (
            so_far r.reply
              (keep_status empty_status r.status)
              s
              (parse_explain_plan r.explain_plan))
  unfolding take_record keep_statistic keep_reply keep_plan new_response
  take_record-new_response s r e = rw e refl

  abbrev Collected : Reply R → Statistic → List (QueryRecord R) → Response R → Type 0
  Collected r0 s rest response =
      (response_is_success response ≡ true)
      × (response.alias_list ≡ alias_names r0)
      × (response.statistic ≡ some s)
      × (reply : Reply R) × (response.reply ≡ some reply)
      × ((t : ResultType) (m : Text)
          → rows_in t reply m ≡ (
              if any_of (names m t) r0.alias
              then rows_in t r0 m ++ all_rows t m rest
              else rows_in t r0 m))

  read_records-Collected :
      (rest : List (QueryRecord R)) (r0 : Reply R) (st : Status) (s : Statistic)
      (plan : List PlanNode)
      → is_success st.code ≡ true
      → IsWhole r0
      → distinct r0.alias ≡ true
      → All IsGood rest
      → (response : Response R) × (read_records (so_far r0 st s plan) (incoming_all rest eof)
          ≡ ok response)
        × Collected r0 s rest response
  unfolding read_records incoming_all with_alias_list all_rows response_is_success
  read_records-Collected [] r0 st s plan h w d g = (
    _,
    refl,
    (h, refl, refl, r0, refl, λ t m. no_more (any_of (names m t) r0.alias) (rows_in t r0 m)),
  )
  read_records-Collected (r ∷ rs) r0 st s plan h w d ((wr, gr), gs) =
      let (r1, e, w1, a, rows) = merge_uql_reply-IsWhole r0 r.reply w wr d in
      let (response, f, (ok_status, list, st_eq, reply, at, total)) =
        read_records-Collected rs r1 (keep_status st r.status) s plan
          (keep_status-goes_on st r.status h gr) w1 (rw a d) gs in
      (
        response,
        read_records-incoming (so_far r0 st s plan) (so_far r1 (keep_status st r.status) s plan) r
              (incoming_all rs eof) (take_record-so_far r0 r1 st s plan r e)
              (keep_status-goes_on st r.status h gr)
            ∙ f,
        (
          ok_status,
          list ∙ ap (map (λ x. x.0)) a,
          st_eq,
          reply,
          at,
          λ t m.
              total t m
              ∙ rw (a, rows t m)
                  (one_more (any_of (names m t) r0.alias) (rows_in t r0 m) (rows_in t r.reply m)
                    (all_rows t m rs)),
        ),
      )

  -- A stream of records with a status that lets the loop go on, whose replies have no nil slice and
  -- no nil table, the first of which has a readable statistic and a header without repetitions: the
  -- response is a success, with the aliases of the first header and the statistic of the first
  -- record, and every alias of that header has the rows of all records in the order of arrival, every
  -- other alias those of the first record.
  pub new_uql_response_lem :
      (first : QueryRecord R) (rest : List (QueryRecord R)) (s : Statistic)
      → IsGood first
      → All IsGood rest
      → distinct first.reply.alias ≡ true
      → parse_statistic first.statistics ≡ ok s
      → (response : Response R) × (new_uql_response (incoming first (incoming_all rest eof))
          ≡ ok response)
        × (response_is_success response ≡ true)
        × (response.alias_list ≡ alias_names first.reply)
        × (response.statistic ≡ some s)
        × (reply : Reply R) × (response.reply ≡ some reply)
        × ((t : ResultType) (m : Text)
            → rows_in t reply m ≡ (
                if any_of (names m t) first.reply.alias
                then all_rows t m (first ∷ rest)
                else rows_in t first.reply m))
  unfolding new_uql_response all_rows
  new_uql_response_lem first rest s (w, g) gs d p =
      let good = keep_status-goes_on empty_status first.status refl g in
      let (response, f, (ok_status, list, st_eq, reply, at, total)) =
        read_records-Collected rest first.reply (keep_status empty_status first.status) s
          (parse_explain_plan first.explain_plan) good w d gs in
      (
        response,
        read_records-incoming new_response
              (so_far first.reply (keep_status empty_status first.status) s
                (parse_explain_plan first.explain_plan))
              first (incoming_all rest eof) (take_record-new_response s first p) good
            ∙ f,
        ok_status,
        list,
        st_eq,
        reply,
        at,
        total,
      )
