-- ===== src/Reply/Lookup.antt =====
-- sdk/utils/merge.reply.go: `CheckAliasExist` and `FindAliasDataInReply`. The default case of the
-- switch, which panics, is a result type that `ResultType` does not have.
use ultipa_go_driver.Prelude.{
  Bool, List, [], ◌∷◌, Option, none, some, Text, text_eq, any_of, if◌then◌else◌,
}
use ultipa_go_driver.Types.{ResultType}
use ultipa_go_driver.Reply.{Entry, Reply, find}

pub data Item (R : Type 0) : Type 0 where
  table : Entry (Option (List R)) → Item R
  rows : Entry (List R) → Item R

-- `Find` on a slice that may be nil.
unfoldable pub find_in : {P : Type 0} → Text → Option (List (Entry P)) → Option (Entry P)
unfolding find
find_in name none = none
find_in name (some es) = find name es

module _ {R : Type 0} where
  abbrev pub as_table : Option (Entry (Option (List R))) → Option (Item R)
  as_table none = none
  as_table (some e) = some (Item.table e)

  abbrev pub as_rows : Option (Entry (List R)) → Option (Item R)
  as_rows none = none
  as_rows (some e) = some (Item.rows e)

  -- What one case of the switch assigns to `data`.
  unfoldable pub data_of : ResultType → Text → Reply R → Option (Item R)
  unfolding find_in
  data_of ResultType.node name r = as_table (find_in name r.nodes)
  data_of ResultType.edge name r = as_table (find_in name r.edges)
  data_of ResultType.table name r = as_rows (find_in name r.tables)
  data_of ResultType.path name r = as_rows (find_in name r.paths)
  data_of ResultType.attr name r = as_table (find_in name r.attrs)
  data_of ResultType.unset name r = none

  unfoldable pub check_alias_exist : Reply R → Text → Bool
  check_alias_exist r name = any_of (λ (n, t). text_eq n name) r.alias

  -- The loop over the header, from the type that the last round assigned.
  unfoldable pub find_loop :
      List (Text × ResultType) → Text → Reply R → ResultType → Option (Item R) × ResultType
  unfolding data_of
  find_loop [] name r t = (none, t)
  find_loop ((n, u) ∷ rest) name r t = elim (data_of u name r) [
    | some d ↦ (some d, u)
    | none ↦ find_loop rest name r u
  ]

  unfoldable pub find_alias_data : Reply R → Text → Option (Item R) × ResultType
  unfolding check_alias_exist find_loop
  find_alias_data r name =
      if check_alias_exist r name
      then find_loop r.alias name r ResultType.unset
      else (none, ResultType.unset)
