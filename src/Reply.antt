-- ===== src/Reply.antt =====
-- sdk/utils/merge.reply.go and sdk/utils/find.go: the parts of a reply, found by alias and merged
-- from one record of a stream to the next. An entry that is appended is shared with the second
-- reply in the source; here it is a copy, which differs only for an alias that the header of the
-- first reply names three times or more.
pub mod Family
pub mod Header
pub mod Round
pub mod Merge
pub mod Lookup
pub mod Found
use ultipa_go_driver.Prelude.{
  Bool, true, false, List, [], ◌∷◌, ◌++◌, Option, none, some, Text, text_eq, if◌then◌else◌, any_of,
}
use ultipa_go_driver.Types.{ResultType}

-- NodeAlias, EdgeAlias, PathAlias, Table (by its TableName) and AttrAlias: a name and its content.
pub record Entry (P : Type 0) : Type 0 where
  pub name : Text
  pub content : P

-- QueryReply over rows of type `R`. A nil slice is `none`; so is a nil EntityTable or Attr.
pub record Reply (R : Type 0) : Type 0 where
  pub alias : List (Text × ResultType)
  pub nodes : Option (List (Entry (Option (List R))))
  pub edges : Option (List (Entry (Option (List R))))
  pub tables : Option (List (Entry (List R)))
  pub paths : Option (List (Entry (List R)))
  pub attrs : Option (List (Entry (Option (List R))))

module _ {P : Type 0} where
  -- `Find`, on a slice that is not nil, by name.
  unfoldable pub find : Text → List (Entry P) → Option (Entry P)
  find name [] = none
  find name (e ∷ es) = if text_eq e.name name then some e else find name es

  -- The write through the pointer that `Find` returned.
  unfoldable pub write_found : Text → P → List (Entry P) → List (Entry P)
  write_found name c [] = []
  write_found name c (e ∷ es) =
      if text_eq e.name name then record e { content = c } ∷ es else e ∷ write_found name c es

-- What one alias does to one family of entries: `same` and `changed` go on with the next alias,
-- the other three end the merge.
pub data Outcome (P : Type 0) : Type 0 where
  same : Outcome P
  changed : List (Entry P) → Outcome P
  first_reply second_reply panics : Outcome P

-- How the contents of two entries of one name are joined.
pub data Joined (P : Type 0) : Type 0 where
  joined : P → Joined P
  -- The entry of the second reply becomes a further one.
  appended : Joined P
  skipped : Joined P
  broken : Joined P

module _ {R : Type 0} where
  abbrev pub join_rows : List R → List R → Joined (List R)
  join_rows r1 r2 = joined (r1 ++ r2)

  -- `x.NodeTable.EntityRows`, where the table may be nil.
  abbrev pub join_tables : Option (List R) → Option (List R) → Joined (Option (List R))
  join_tables (some r1) (some r2) = joined (some (r1 ++ r2))
  join_tables _ _ = broken

  abbrev pub join_attrs : Option (List R) → Option (List R) → Joined (Option (List R))
  join_attrs _ none = skipped
  join_attrs none (some r2) = appended
  join_attrs (some r1) (some r2) = joined (some (r1 ++ r2))

module _ {P : Type 0} (join : P → P → Joined P) (name : Text) where
  abbrev pub apply_join : List (Entry P) → Entry P → Joined P → Outcome P
  apply_join es d2 (joined c) = changed (write_found name c es)
  apply_join es d2 appended = changed (es ++ (d2 ∷ []))
  apply_join es d2 skipped = same
  apply_join es d2 broken = panics

  abbrev pub merge_found : List (Entry P) → Option (Entry P) → Option (Entry P) → Outcome P
  merge_found es d1 none = same
  merge_found es none (some d2) = changed (es ++ (d2 ∷ []))
  merge_found es (some d1) (some d2) = apply_join es d2 (join d1.content d2.content)

  -- The case of one result type, which is the same text for each.
  unfoldable pub merge_family : Option (List (Entry P)) → Option (List (Entry P)) → Outcome P
  merge_family none none = first_reply
  merge_family none (some _) = second_reply
  merge_family (some _) none = first_reply
  merge_family (some es1) (some es2) = merge_found es1 (find name es1) (find name es2)

-- The merge so far: it goes on, it has returned one of the replies, or it has followed a nil pointer.
pub data Merged (R : Type 0) : Type 0 where
  go_on : Reply R → Merged R
  return : Reply R → Merged R
  crash : Merged R

module _ {R P : Type 0} where
  abbrev pub settle : Reply R → Reply R → (List (Entry P) → Reply R) → Outcome P → Merged R
  settle r1 r2 put same = go_on r1
  settle r1 r2 put (changed es) = go_on (put es)
  settle r1 r2 put first_reply = return r1
  settle r1 r2 put second_reply = return r2
  settle r1 r2 put panics = crash

module _ {R : Type 0} where
  -- One round of the loop of `MergeUQLReply`.
  unfoldable pub merge_alias : Text × ResultType → Reply R → Reply R → Merged R
  merge_alias (name, ResultType.node) r1 r2 =
      settle r1 r2 (λ es. record r1 { nodes = some es })
        (merge_family join_tables name r1.nodes r2.nodes)
  merge_alias (name, ResultType.edge) r1 r2 =
      settle r1 r2 (λ es. record r1 { edges = some es })
        (merge_family join_tables name r1.edges r2.edges)
  merge_alias (name, ResultType.table) r1 r2 =
      settle r1 r2 (λ es. record r1 { tables = some es })
        (merge_family join_rows name r1.tables r2.tables)
  merge_alias (name, ResultType.path) r1 r2 =
      settle r1 r2 (λ es. record r1 { paths = some es })
        (merge_family join_rows name r1.paths r2.paths)
  merge_alias (name, ResultType.attr) r1 r2 =
      settle r1 r2 (λ es. record r1 { attrs = some es })
        (merge_family join_attrs name r1.attrs r2.attrs)
  merge_alias (name, ResultType.unset) r1 r2 = go_on r1

  unfoldable pub merge_all : List (Text × ResultType) → Reply R → Reply R → Merged R
  merge_all [] r1 r2 = return r1
  merge_all (a ∷ rest) r1 r2 = elim (merge_alias a r1 r2) [
    | go_on r ↦ merge_all rest r r2
    | return r ↦ return r
    | crash ↦ crash
  ]

  -- `MergeUQLReply`: the header that the loop runs over is the one that the first reply came with.
  unfoldable pub merge_uql_reply : Reply R → Reply R → Merged R
  unfolding merge_all
  merge_uql_reply r1 r2 = merge_all r1.alias r1 r2
