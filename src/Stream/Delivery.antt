-- ===== src/Stream/Delivery.antt =====
-- sdk/http/responseStream.go: which records reach the callback of `Recv`, and how it ends.
use ultipa_go_driver.Prelude.{◌≡◌, List, Option, none, some, Text, ok, err}
use ultipa_go_driver.Stream.{QueryRecord, Incoming, eof, broken, incoming, StreamError}
use ultipa_go_driver.Stream.Response.{Response}
use ultipa_go_driver.Stream.Receive.{response_of, Accepted}
use ultipa_go_driver.Stream.Collect.{incoming_all}

module _ {R S : Type 0} where
  -- From a state of the callback, the ways in which a stream ends the loop at once: the state it
  -- leaves and the error that is returned.
  pub data Stops (errorf : Text → Text) (cb : S → Response R → S × Option Text)
      : S → Incoming R → S × Option StreamError → Type 0 where
    at_eof : {s : S} → Stops errorf cb s eof (s, none)
    at_broken :
        {s : S} (message : Text)
        → Stops errorf cb s (broken message) (s, some (StreamError.recv message))
    at_record :
        {s : S} {r : QueryRecord R} {rest : Incoming R} (e : StreamError)
        → response_of errorf r ≡ err e
        → Stops errorf cb s (incoming r rest) (s, some e)
    at_callback :
        {s : S} {r : QueryRecord R} {rest : Incoming R} (response : Response R) (message : Text)
        → response_of errorf r ≡ ok response
        → (cb s response).1 ≡ some message
        → Stops errorf cb s
            (incoming r rest)
            ((cb s response).0, some (StreamError.callback message))

  abbrev Delivers :
      (Text → Text)
      → (S → Response R → S × Option Text)
      → S
      → Incoming R
      → S × Option StreamError
      → Type 0
  Delivers errorf cb s stream result =
      (rs : List (QueryRecord R)) × (tail : Incoming R) × (s' : S) × (incoming_all rs tail ≡ stream)
      × Accepted errorf cb s rs s'
      × Stops errorf cb s' tail result
