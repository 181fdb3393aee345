-- ===== src/Client/Accounts.antt =====
-- sdk/structs/user.go and policy.go, sdk/api/user.go and policy.go: the statements on users and
-- policies. `G` stands for the privileges on graphs, which are only turned into JSON; a nil map or
-- slice is `none`.
use mathlib.Core.List.{append_assoc, append-nil}
use ultipa_go_driver.Prelude.{
  ℕ, ◌≡◌, refl, sym, ap, Bool, true, false, List, [], ◌∷◌, ◌++◌, Option, none, some, Text, bytes,
  text_eq, text_join, if◌then◌else◌,
}
use ultipa_go_driver.Client.{in_quotes}

-- Lists of the properties that may be read, written, or neither.
pub record Access : Type 0 where
  pub read : Option (List (List Text))
  pub write : Option (List (List Text))
  pub deny : Option (List (List Text))

pub record NewUser (G : Type 0) : Type 0 where
  pub user_name : Text
  pub pass_word : Text
  pub graph_privileges : Option G
  pub system_privileges : Option (List Text)
  pub policies : Option (List Text)
  -- Of nodes and of edges. No statement has them.
  pub property_privileges : Access × Access

pub record NewPolicy (G : Type 0) : Type 0 where
  pub name : Text
  pub graph_privileges : Option G
  pub system_privileges : Option (List Text)
  pub node : Access
  pub edge : Access
  pub policies : Option (List Text)

-- `ToJSONString`
pub record Printer (G : Type 0) : Type 0 where
  pub graph_json : G → Text
  pub texts_json : List Text → Text
  pub property_json : Access → Access → Text
  pub policy_json : NewPolicy G → Text

abbrev pub newline : Text
newline = 10 ∷ []

abbrev comma_line : Text
comma_line = bytes "," ++ newline

abbrev shown : {A : Type 0} → (A → Text) → Text → Option A → Text
shown f default none = default
shown f default (some a) = f a

abbrev is_nil : List Text → Bool
is_nil [] = true
is_nil (x ∷ xs) = false

text_join-snoc :
    (sep x : Text) (fs : List Text)
    → text_join sep (fs ++ (x ∷ [])) ≡ text_join sep fs ++ ((if is_nil fs then [] else sep) ++ x)
unfolding text_join
text_join-snoc sep x [] = refl
text_join-snoc sep x (f ∷ []) = refl
text_join-snoc sep x (f ∷ g ∷ fs) =
    simp append_assoc (ap (λ t. f ++ (sep ++ t)) (text_join-snoc sep x (g ∷ fs)))

is_nil-snoc : (x : Text) (fs : List Text) → is_nil (fs ++ (x ∷ [])) ≡ false
is_nil-snoc x [] = refl
is_nil-snoc x (f ∷ fs) = refl

after_comma :
    (b : Bool) (c : ℕ) (t : Text) → text_eq ((if b then [] else comma_line) ++ (c ∷ t)) [] ≡ false
unfolding text_eq
after_comma true c t = refl
after_comma false c t = refl

module _ {G : Type 0} (printer : Printer G) where
  unfoldable pub to_create_user_uql : NewUser G → Text
  to_create_user_uql u =
      bytes "create().user("
      ++ (in_quotes u.user_name
          ++ (comma_line
              ++ (in_quotes u.pass_word
                  ++ (comma_line
                      ++ (shown printer.graph_json (bytes "{}") u.graph_privileges
                          ++ (comma_line
                              ++ (shown printer.texts_json (bytes "[]") u.system_privileges
                                  ++ (comma_line
                                      ++ (shown printer.texts_json (bytes "[]") u.policies
                                          ++ (newline ++ bytes ")"))))))))))

  abbrev or_empty : Option (List (List Text)) → Option (List (List Text))
  or_empty none = some []
  or_empty (some l) = some l

  -- A nil list is made an empty one, which JSON shows otherwise.
  unfoldable pub without_nil : Access → Access
  without_nil a = record {
    read = or_empty a.read;
    write = or_empty a.write;
    deny = or_empty a.deny;
  }

  unfoldable pub to_create_policy_uql : NewPolicy G → Text
  unfolding without_nil
  to_create_policy_uql p =
      bytes "create().policy("
      ++ (in_quotes p.name
          ++ (comma_line
              ++ (shown printer.graph_json (bytes "{}") p.graph_privileges
                  ++ (comma_line
                      ++ (shown printer.texts_json (bytes "[]") p.system_privileges
                          ++ (comma_line
                              ++ (shown printer.texts_json (bytes "[]") p.policies
                                  ++ (comma_line
                                      ++ (printer.property_json (without_nil p.node)
                                            (without_nil p.edge)
                                          ++ (newline ++ bytes ")"))))))))))

  unfoldable pub to_alter_policy_uql : NewPolicy G → Text
  unfolding without_nil
  to_alter_policy_uql p =
      bytes "alter().policy("
      ++ (in_quotes p.name
          ++ (bytes ").set("
              ++ (printer.policy_json
                    (record p { node = without_nil p.node; edge = without_nil p.edge })
                  ++ bytes ")")))

  -- The variables `s` and `uql`: a field is written after a comma where `s` is not empty.
  unfoldable pub add_field : {A : Type 0} → Text → (A → Text) → Option A → Text × Text → Text × Text
  unfolding text_eq
  add_field key f none (s, uql) = (s, uql)
  add_field key f (some a) (s, uql) =
      let field = (if text_eq s [] then [] else comma_line) ++ (key ++ f a) in (field, uql ++ field)

  abbrev add_password : Text → Text → Text × Text
  add_password [] uql = ([], uql)
  add_password (c ∷ s) uql =
      let field = bytes "password: " ++ in_quotes (c ∷ s) in (field, uql ++ field)

  unfoldable pub to_alter_user_uql : NewUser G → Text
  unfolding add_field
  to_alter_user_uql u =
      let start =
        bytes "alter().user(" ++ (in_quotes u.user_name ++ (bytes ").set({" ++ newline)) in
      let fields = add_field (bytes "policies:") printer.texts_json u.policies (
        add_field (bytes "system_privileges:") printer.texts_json u.system_privileges (
          add_field (bytes "graph_privileges:") printer.graph_json u.graph_privileges
            (add_password u.pass_word start))) in
      fields.1 ++ (newline ++ bytes "})")

  -- The fields that are given, each with its name.
  abbrev pub password_field : Text → List Text
  password_field [] = []
  password_field (c ∷ s) = (bytes "password: " ++ in_quotes (c ∷ s)) ∷ []

  abbrev pub given_field : {A : Type 0} → Text → (A → Text) → Option A → List Text
  given_field key f none = []
  given_field key f (some a) = (key ++ f a) ∷ []

  unfoldable pub given_fields : NewUser G → List Text
  given_fields u =
      password_field u.pass_word
      ++ (given_field (bytes "graph_privileges:") printer.graph_json u.graph_privileges
          ++ (given_field (bytes "system_privileges:") printer.texts_json u.system_privileges
              ++ given_field (bytes "policies:") printer.texts_json u.policies))

  -- The variables after some fields: `uql` has them joined, and `s` is empty where there are none.
  abbrev Written : Text → List Text → Text × Text → Type 0
  Written start fs (s, uql) = (uql ≡ start ++ text_join comma_line fs) × (text_eq s [] ≡ is_nil fs)

  add_field-Written :
      {A : Type 0} (c : ℕ) (key : Text) (f : A → Text) (a : Option A) (start : Text)
      (fs : List Text) (v : Text × Text)
      → Written start fs v
      → Written start (fs ++ given_field (c ∷ key) f a) (add_field (c ∷ key) f a v)
  unfolding add_field
  add_field-Written c key f none start fs (s, uql) (h, e) =
      (rw (append-nil fs) h, rw (append-nil fs) e)
  add_field-Written c key f (some a) start fs (s, uql) (h, e) = (
    rw (h, e, text_join-snoc comma_line (c ∷ (key ++ f a)) fs) (simp append_assoc),
    rw (e, is_nil-snoc (c ∷ (key ++ f a)) fs) (after_comma (is_nil fs) c (key ++ f a)),
  )

  add_password-Written :
      (pw start : Text) → Written start (password_field pw) (add_password pw start)
  unfolding text_join text_eq
  add_password-Written [] start = (sym (append-nil start), refl)
  add_password-Written (c ∷ s) start = (refl, refl)

  -- The statement that alters a user sets those of the password, the graph and system privileges and
  -- the policies that are given, in order, with a comma between any two, none before the first and none
  -- after the last. The property privileges are never set.
  pub to_alter_user_uql_lem :
      (u : NewUser G)
      → to_alter_user_uql u
        ≡ bytes "alter().user("
          ++ (in_quotes u.user_name
              ++ (bytes ").set({"
                  ++ (newline
                      ++ (text_join (bytes "," ++ newline) (given_fields u)
                          ++ (newline ++ bytes "})")))))
  unfolding to_alter_user_uql given_fields
  to_alter_user_uql_lem u =
      let start =
        bytes "alter().user(" ++ (in_quotes u.user_name ++ (bytes ").set({" ++ newline)) in
      let one = add_password-Written u.pass_word start in
      let two =
        add_field-Written b'g' (bytes "raph_privileges:") printer.graph_json u.graph_privileges
          start _ _ one in
      let three =
        add_field-Written b's' (bytes "ystem_privileges:") printer.texts_json u.system_privileges
          start _ _ two in
      let four =
        add_field-Written b'p' (bytes "olicies:") printer.texts_json u.policies start _ _ three in
      rw four.0 (simp append_assoc)
