-- ===== src/Client/Session.antt =====
-- sdk/api/api.go: `Uql` as the other calls of the client see it. A session takes a statement and gives
-- its response and the state that it leaves; the session of the driver is the one whose state is the
-- pool. Calls are chained by a monad of states and errors.
use ultipa_go_driver.Prelude.{◌≡◌, refl, Option, Text, Result, ok, err, ok_inj}
use ultipa_go_driver.Prelude.Int.{ℤ}
use ultipa_go_driver.Runtime.{Runtime}
use ultipa_go_driver.Config.{RequestConfig}
use ultipa_go_driver.Pool.{Pool}
use ultipa_go_driver.Stream.Response.{Response}
use ultipa_go_driver.Api.{ApiError, Network, QueryType, api_query}
use ultipa_go_driver.Client.{ClientError}

pub record Session (S R : Type 0) : Type 0 where
  pub send : Option RequestConfig → Text → S → Result ApiError (Response R) × S

-- `Uql`
unfoldable pub pool_session : {R : Type 0} → Runtime → ℤ → Network R → Session Pool R
unfolding api_query
pool_session rt zone_offset net = record {
  send = λ config text p. api_query rt zone_offset net p text QueryType.uql config;
}

abbrev pub Call : Type 0 → Type 0 → Type 0
Call S A = S → Result ClientError A × S

module _ {S : Type 0} where
  abbrev go_on :
      {A B : Type 0} → Result ClientError A × S → (A → Call S B) → Result ClientError B × S
  go_on (ok a, s) f = f a s
  go_on (err e, s) f = (err e, s)

  infixl 5 ◌>>=◌
  abbrev pub ◌>>=◌ : {A B : Type 0} → Call S A → (A → Call S B) → Call S B
  ◌>>=◌ c f s = go_on (c s) f

  -- A result that needs no statement.
  abbrev pub from_result : {A : Type 0} → Result ClientError A → Call S A
  from_result r s = (r, s)

abbrev answered : {R : Type 0} → Result ApiError R → Result ClientError R
answered (ok r) = ok r
answered (err e) = err (ClientError.query e)

-- A statement that is sent.
unfoldable pub uql :
    {S R : Type 0} → Session S R → Option RequestConfig → Text → Call S (Response R)
uql session config text s = let (r, t) = session.send config text s in (answered r, t)

go_on-ok :
    {S A B : Type 0} (f : A → Call S B) (a : A) (p : Result ClientError A × S)
    → p.0 ≡ ok a
    → go_on p f ≡ f a p.1
go_on-ok f a (ok b, s) h = rw (ok_inj h) refl
go_on-ok f a (err e, s) h = cc

-- A chain goes on with the value and the state that its first call leaves.
pub bind-at :
    {S A B : Type 0} (c : Call S A) (f : A → Call S B) (a : A) (s : S)
    → (c s).0 ≡ ok a
    → (c >>= f) s ≡ f a (c s).1
bind-at c f a s h = go_on-ok f a (c s) h

go_on-state :
    {S A B : Type 0} (f : A → Call S B)
    → ((a : A) (t : S) → (f a t).1 ≡ t)
    → (p : Result ClientError A × S) → (go_on p f).1 ≡ p.1
go_on-state f h (ok a, s) = h a s
go_on-state f h (err e, s) = refl

-- Where the rest of a chain leaves every state alone, its first call decides on the state.
pub bind-state :
    {S A B : Type 0} (c : Call S A) (f : A → Call S B) (s : S)
    → ((a : A) (t : S) → (f a t).1 ≡ t)
    → ((c >>= f) s).1 ≡ (c s).1
bind-state c f s h = go_on-state f h (c s)

pub from_result-state :
    {S A B : Type 0} (r : Result ClientError A) (f : A → Result ClientError B) (s : S)
    → ((from_result r >>= (λ a. from_result (f a))) s).1 ≡ s
from_result-state (ok a) f s = refl
from_result-state (err e) f s = refl
