-- ===== src/Store/Requests.antt =====
-- Sequences of calls of the store, and what they keep.
use stream_weave.Prelude.{ℕ, ◌≡◌, refl, String, Option, List, [], ◌∷◌, ok, Bool-cases, inl, inr}
use stream_weave.Orders.Model.{Order, Time}
use stream_weave.Db.Tables.{Database}
use stream_weave.Db.Monad.{Env, World, Tx, transaction}
use stream_weave.Db.Keeps.{Holds, Begins}
use stream_weave.Store.Invariant.{IsInvariant}
use stream_weave.Store.Invariant.Frame.{both-IsInvariant}
use stream_weave.Store.Invariant.Calls.{create-Keeps, request_cancellation-Keeps}
use stream_weave.Store.Invariant.FactCalls.{process_fact-Keeps}
use stream_weave.Store.Quotes.{QuoteVerifier}
use stream_weave.Store.Create.{create}
use stream_weave.Store.Cancel.{request_cancellation}
use stream_weave.Store.Facts.{process_fact}

-- A call of the store: an order created or cancelled, or a fact.
pub data Request : Type 0 where
  creates : String → Order → String → String → String → Request
  cancels : String → String → String → String → String → String → ℕ → Time → Request
  facts : Option QuoteVerifier → String → String → Request

unfoldable pub serve : Request → Env → World → World
serve (creates actor order operation key hash) env w =
    (create actor order operation key hash env w).1
serve (cancels actor id operation key hash reason version at) env w =
    (request_cancellation actor id operation key hash reason version at env w).1
serve (facts v group payload) env w = (process_fact v group payload env w).1

unfoldable pub serve_all : List Request → Env → World → World
serve_all [] env w = w
serve_all (r ∷ rest) env w = serve_all rest env (serve r env w)

module _ (P : Database → Type 0) (i : IsInvariant (λ c d. P d)) where
  abbrev pub Both : Database → Database → Type 0
  Both c d = P c × P d

  Both-Begins : Begins Both
  Both-Begins c d h = (h.0, h.0)

  serve-Keeps : (r : Request) (env : Env) (w : World) → Holds Both w → Holds Both (serve r env w)
  unfolding serve
  serve-Keeps (creates actor order operation key hash) env w h =
      (create-Keeps Both (both-IsInvariant P i) Both-Begins actor order operation key hash).at env w
        h
  serve-Keeps (cancels actor o operation key hash reason version at) env w h =
      (request_cancellation-Keeps Both (both-IsInvariant P i) Both-Begins actor o operation key hash
          reason version at).at
        env w h
  serve-Keeps (facts v g payload) env w h =
      (process_fact-Keeps Both (both-IsInvariant P i) v g Both-Begins payload).at env w h

  pub serve_all-Keeps :
      (l : List Request) (env : Env) (w : World) → Holds Both w → Holds Both (serve_all l env w)
  unfolding serve_all
  serve_all-Keeps [] env w h = h
  serve_all-Keeps (r ∷ l) env w h = serve_all-Keeps l env (serve r env w) (serve-Keeps r env w h)

-- After a transaction that succeeds, the tables that the connection sees are the committed ones.
pub transaction-clean :
    {A : Type 0} (body : Tx A) (a : A) (env : Env) (w : World)
    → (transaction body env w).0 ≡ ok a
    → (transaction body env w).1.working ≡ (transaction body env w).1.committed
unfolding transaction
transaction-clean body a env w h = elim (Bool-cases (env.fault w.calls)) [
  | inl e ↦ cc (rw e at h)
  | inr e ↦ rw e refl
]
