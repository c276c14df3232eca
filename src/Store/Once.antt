-- ===== src/Store/Once.antt =====
-- A fact that is accepted is settled, and a settled fact changes nothing.
pub mod Later
use stream_weave.Prelude.{
  ℕ, zero, ◌≡◌, ◌≢◌, refl, sym, ◌∙◌, String, Bool, true, false, not, ◌||◌, Option, none, some, List,
  [], ◌∷◌, arith, find_first, update_rows, map_option, find_first-update_rows, Result, ok, err,
  Option-cases, Bool-cases, inl, inr, ◌==◌, if◌then◌else◌, find_first-eq-some,
}
use stream_weave.Orders.Model.{Order, Time}
use stream_weave.App.{Error}
use stream_weave.Message.{Fact}
use stream_weave.Db.Tables.{InboxRow, Database}
use stream_weave.Db.Monad.{Env, World, Tx}
use stream_weave.Db.Messages.{is_message, insert_inbox, get_inbox, record_inbox_failure}
use stream_weave.Db.Keeps.{Holds, Begins, Keeps-now_utc}
use stream_weave.Db.Moves.{
  Rel, Moves, Moves-Keeps, Moves-bind, Moves-statement_bind, Moves-if, Moves-skip, Moves-fail,
  Moves-transaction,
}
use stream_weave.Store.Atomic.Calls.{process_fact_atomic}
use stream_weave.Store.Invariant.{IsInvariant}
use stream_weave.Store.Invariant.Frame.{both-IsInvariant}
use stream_weave.Store.Invariant.Calls.{create-Keeps, request_cancellation-Keeps}
use stream_weave.Store.Invariant.FactCalls.{process_fact-Keeps}
use stream_weave.Store.Invariant.Once.{
  IsSettledIn, Settled, settled-IsInvariant, fact_transaction-Moves,
}
use stream_weave.Store.Quotes.{QuoteVerifier}
use stream_weave.Store.Create.{create}
use stream_weave.Store.Cancel.{request_cancellation}
use stream_weave.Store.Facts.{
  is_settled, received_row, envelope_ok, identity_ok, handle_fact, handle_known, fact_transaction,
  process_decoded, process_fact,
}

module _ (v : Option QuoteVerifier) (group : String) where
  process_decoded-Moves :
      (f : Fact) (hash : String)
      → Moves (λ c d. Unit {0}) (Settled v group f) (process_decoded v group (some f) hash)
  unfolding process_decoded
  process_decoded-Moves f hash =
      Moves-if _ _ (not (envelope_ok f) || not (identity_ok f)) _ _ (λ e. Moves-fail _ _ _)
        (λ e. fact_transaction-Moves v group f hash)

  -- A fact that `ProcessFact` accepts is settled in the committed inbox.
  pub process_fact-settles :
      (payload : String) (f : Fact) (env : Env) (w : World)
      → env.decode_fact payload ≡ some f
      → (process_fact v group payload env w).0 ≡ ok tt
      → IsSettledIn group f.event_id (process_fact v group payload env w).1.committed.inbox
  unfolding process_fact
  process_fact-settles payload f env w d h =
      rw d ((process_decoded-Moves f (env.sha256_hex payload)).at env w tt tt (rw d at h))

  module _ (f : Fact) (db : Database) (settled : IsSettledIn group f.event_id db.inbox) where
    abbrev Still : Rel
    Still c d = (c ≡ db) × (d ≡ db)

    insert-nothing :
        (at : Time) (hash : String) (c d : Database) (n : ℕ) (d' : Database)
        → insert_inbox (received_row group f hash at) d ≡ ok (n, d')
        → Still c d
        → ((n == 0) ≡ true) × Still c d'
    unfolding insert_inbox
    insert-nothing at hash c d n d' e h =
        elim (Option-cases (find_first (is_message group f.event_id) db.inbox)) [
          | inl x ↦ cc (rw x at settled)
          | inr (q, x) ↦ ground arith
        ]

    get-settled :
        (c d : Database) (r : InboxRow) (d' : Database)
        → get_inbox group f.event_id d ≡ ok (r, d')
        → Still c d
        → (is_settled r.status ≡ true) × Still c d'
    unfolding get_inbox
    get-settled c d r d' e h =
        elim (Option-cases (find_first (is_message group f.event_id) db.inbox)) [
          | inl x ↦ cc (rw x at settled)
          | inr (q, x) ↦ ground (arith, settled)
        ]

    abbrev Unchanged : Rel
    Unchanged c d = c ≡ db

    handle_known-Unchanged : Moves Still Unchanged (handle_known v group f)
    unfolding handle_known
    handle_known-Unchanged =
        Moves-statement_bind Still (λ r c d. (is_settled r.status ≡ true) × Still c d) Unchanged _ _
          get-settled
          λ r.
            Moves-if _ _ (is_settled r.status) _ _ (λ e. Moves-skip _ _ (λ c d h. h.1.0))
              (λ e. record { at = λ env w a h x. cc (h.0, e) })

    fact_transaction-Unchanged :
        (hash : String) → Moves (λ c d. c ≡ db) Unchanged (fact_transaction v group f hash)
    unfolding fact_transaction
    fact_transaction-Unchanged hash =
        Moves-transaction (λ c. c ≡ db) (λ c. c ≡ db) Still _ (λ c h. (h, h))
          (Moves-bind Still Still Unchanged _ _ (Moves-Keeps Still _ (Keeps-now_utc Still)) λ at.
            Moves-statement_bind Still (λ n c d. ((n == 0) ≡ true) × Still c d) Unchanged _ _
              (insert-nothing at hash)
              λ n.
                Moves-if _ _ (n == 0) _ _
                  (λ e. record { at = λ env w a h x. handle_known-Unchanged.at env w a h.1 x })
                  (λ e. record { at = λ env w a h x. cc (h.0, e) }))

    process_decoded-Unchanged :
        (hash : String) → Moves (λ c d. c ≡ db) Unchanged (process_decoded v group (some f) hash)
    unfolding process_decoded
    process_decoded-Unchanged hash =
        Moves-if _ _ (not (envelope_ok f) || not (identity_ok f)) _ _ (λ e. Moves-fail _ _ _)
          (λ e. fact_transaction-Unchanged hash)

  accepted_unchanged :
      (payload : String) (f : Fact) (env : Env) (w : World)
      → env.decode_fact payload ≡ some f
      → IsSettledIn group f.event_id w.committed.inbox
      → {a : Unit {0}} → (process_fact v group payload env w).0 ≡ ok a
      → (process_fact v group payload env w).1.committed ≡ w.committed
  unfolding process_fact
  accepted_unchanged payload f env w d s {a} x = rw d (
      (process_decoded-Unchanged f w.committed s (env.sha256_hex payload)).at env w a refl
        (rw d at x))

  -- A fact whose message is settled in the committed inbox changes no committed table, whatever
  -- fails on the way.
  pub settled_unchanged :
      (payload : String) (f : Fact) (env : Env) (w : World)
      → env.decode_fact payload ≡ some f
      → IsSettledIn group f.event_id w.committed.inbox
      → (process_fact v group payload env w).1.committed ≡ w.committed
  settled_unchanged payload f env w d s = go ((process_fact v group payload env w).0) refl
    where
      go :
          (r : Result Error (Unit {0}))
          → (process_fact v group payload env w).0 ≡ r
          → (process_fact v group payload env w).1.committed ≡ w.committed
      go (err e) x = process_fact_atomic env w e v group payload x
      go (ok a) x = accepted_unchanged payload f env w d s x
