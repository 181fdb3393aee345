-- ===== src/Client/Quiet.antt =====
-- Calls of the client that change nothing on the server: all that they send asks for a listing. The
-- server is one that answers the listings alike until something else is sent.
use ultipa_go_driver.Prelude.{◌≡◌, ◌⊎◌, List, [], Option, some, Text, bytes, ok, All}
use ultipa_go_driver.Config.{RequestConfig}
use ultipa_go_driver.Stream.Response.{Response}
use ultipa_go_driver.Items.Tables.{DbType}
use ultipa_go_driver.Items.Listings.{ListedProperty, ListedSchema}
use ultipa_go_driver.Client.{by_type}
use ultipa_go_driver.Client.Session.{Session, Call}
use ultipa_go_driver.Client.Readers.{find_schema, find_property}

abbrev pub IsListing : Text → Type 0
IsListing text = (text ≡ bytes "show().schema()") ⊎ (text ≡ bytes "show().graph().more()")

-- The second state comes from the first by statements that ask for a listing.
pub data Listed {S R : Type 0} (session : Session S R) : S → S → Type 0 where
  here : {s : S} → Listed session s s
  then_ask :
      {s t : S} (config : Option RequestConfig) (text : Text)
      → IsListing text
      → Listed session s t
      → Listed session s (session.send config text t).1

-- The schema and the property are among those that are listed.
abbrev pub IsListed : List ListedSchema → DbType → Text → Text → Type 0
IsListed listed t schema name =
    (s : ListedSchema) × (found : ListedProperty) × (find_schema schema t listed ≡ some s)
    × (find_property name s.properties ≡ some found)

-- The schema is listed under the configuration of the call, and its properties under the nil one.
abbrev pub IsMade : List ListedSchema → List ListedSchema → ListedSchema → Type 0
IsMade listed listed_by_default s =
    (kind : Text) × (found : ListedSchema) × (by_type [] [] s.db_type ≡ ok kind)
    × (find_schema s.name s.db_type listed ≡ some found)
    × All (λ p. IsListed listed_by_default s.db_type p.schema p.name) s.properties

module _ {S R : Type 0} (session : Session S R) where
  -- The call returns the value, and all that it sends asks for a listing.
  abbrev IsQuiet : {A : Type 0} → Call S A → A → Type 0
  IsQuiet c a = (s : S) → ((c s).0 ≡ ok a) × Listed session s (c s).1
