-- ===== src/Store/Once/Later.antt =====
-- Exactly-once processing of facts, over any later calls of the store.
use stream_weave.Prelude.{◌≡◌, String, Option, some, List, ok, Bool-cases, inl, inr, not, ◌||◌}
use stream_weave.Message.{Fact}
use stream_weave.Db.Monad.{Env, World, fail}
use stream_weave.Store.Invariant.Once.{IsSettledIn, settled-IsInvariant}
use stream_weave.Store.Quotes.{QuoteVerifier}
use stream_weave.Store.Facts.{
  envelope_ok, identity_ok, fact_transaction, process_decoded, process_fact,
}
use stream_weave.Store.Requests.{Request, serve_all, serve_all-Keeps, transaction-clean}
use stream_weave.Store.Once.{process_fact-settles, settled_unchanged}

process_fact-clean :
    (v : Option QuoteVerifier) (group payload : String) (f : Fact) (env : Env) (w : World)
    → env.decode_fact payload ≡ some f
    → (process_fact v group payload env w).0 ≡ ok tt
    → (process_fact v group payload env w).1.working
      ≡ (process_fact v group payload env w).1.committed
unfolding process_fact process_decoded fact_transaction fail
process_fact-clean v group payload f env w d h =
    elim (Bool-cases (not (envelope_ok f) || not (identity_ok f))) [
      | inl e ↦ cc (rw (d, e) at h)
      | inr e ↦ rw (d, e) (transaction-clean _ tt env w (rw (d, e) at h))
    ]

-- A fact that `ProcessFact` accepted takes effect once: after any later calls of Create,
-- RequestCancellation and ProcessFact, in any order and with any failures of the database, a
-- redelivery of its payload to the same consumer group leaves the committed tables as they are.
pub fact_once :
    (v again : Option QuoteVerifier) (group payload : String) (f : Fact) (env : Env) (w : World)
    (l : List Request)
    → env.decode_fact payload ≡ some f
    → (process_fact v group payload env w).0 ≡ ok tt
    → let after = serve_all l env (process_fact v group payload env w).1 in
      (process_fact again group payload env after).1.committed ≡ after.committed
fact_once v again group payload f env w l d h = settled_unchanged again group payload f env _ d (
    (serve_all-Keeps (λ d. IsSettledIn group f.event_id d.inbox)
      (settled-IsInvariant group f.event_id) l env _
      (s, cc (s, process_fact-clean v group payload f env w d h))).0)
  where
    s : IsSettledIn group f.event_id (process_fact v group payload env w).1.committed.inbox
    s = process_fact-settles v group payload f env w d h
