-- ===== src/Store/Invariant/Once.antt =====
-- A fact takes effect at most once: `ProcessFact` leaves the message settled in the inbox, and a
-- settled message is left alone.
use stream_weave.Prelude.{
  ℕ, ◌≡◌, refl, String, Bool, true, false, Option, none, some, List, [], ◌∷◌, ◌++◌, arith,
  find_first, update_rows, map_option, find_first-append, find_first-append_none,
  find_first-update_rows, find_first-eq-some, eq_refl, is_some, ok, Option-cases, inl, inr, ◌==◌,
  if◌then◌else◌,
}
use stream_weave.Orders.Model.{Time}
use stream_weave.Message.{Fact}
use stream_weave.Db.Tables.{InboxRow, processed, Database}
use stream_weave.Db.Messages.{is_message, insert_inbox, get_inbox, mark_inbox_processed}
use stream_weave.Db.Keeps.{KeepsQuery, Keeps-now_utc}
use stream_weave.Db.Moves.{
  Rel, Moves, Moves-Keeps, Moves-bind, Moves-statement, Moves-statement_bind, Moves-commit,
  Moves-if, Moves-skip, Moves-transaction,
}
use stream_weave.Store.Invariant.{IsInvariant, load_order-Keeps}
use stream_weave.Store.Invariant.FactCalls.{apply_fact-Keeps}
use stream_weave.Store.Quotes.{QuoteVerifier}
use stream_weave.Store.Invariant.Frame.{inbox-IsInvariant}
use stream_weave.Store.Facts.{is_settled, received_row, handle_fact, handle_known, fact_transaction}

module _ (group id : String) where
  abbrev settled_row : Option InboxRow → Bool
  settled_row none = false
  settled_row (some r) = is_settled r.status

  -- The inbox has a row for the message, with a status that ends its processing.
  abbrev pub IsSettledIn : List InboxRow → Type 0
  IsSettledIn l = settled_row (find_first (is_message group id) l) ≡ true

  abbrev pub IsKnownIn : List InboxRow → Type 0
  IsKnownIn l = is_some (find_first (is_message group id) l) ≡ true

  abbrev marked : Time → InboxRow → InboxRow
  marked at r = record r { status = processed; processed_at = some at; last_error = none }

  find-marked :
      (g i : String) (at : Time) (l : List InboxRow)
      → find_first (is_message group id) (update_rows (is_message g i) (marked at) l)
        ≡ map_option
            (λ x. if is_message g i x then marked at x else x)
            (find_first (is_message group id) l)
  find-marked g i at l =
      find_first-update_rows (is_message group id) (is_message g i) (marked at) (λ x. refl) l

  known-append : (r : InboxRow) (l : List InboxRow) → IsKnownIn l → IsKnownIn (l ++ r ∷ [])
  known-append r l h = elim (Option-cases (find_first (is_message group id) l)) [
    | inl e ↦ cc (rw e at h)
    | inr (a, e) ↦ rw (find_first-append (is_message group id) l (r ∷ []) a e)
  ]

  settled-append : (r : InboxRow) (l : List InboxRow) → IsSettledIn l → IsSettledIn (l ++ r ∷ [])
  settled-append r l h = elim (Option-cases (find_first (is_message group id) l)) [
    | inl e ↦ cc (rw e at h)
    | inr (a, e) ↦ rw (find_first-append (is_message group id) l (r ∷ []) a e) (rw e at h)
  ]

  known-mark :
      (g i : String) (at : Time)
      → KeepsQuery (λ c d. IsKnownIn d.inbox) (mark_inbox_processed g i at)
  unfolding mark_inbox_processed
  known-mark g i at = record { at = λ c db e h. ground (arith, find-marked g i at db.inbox) }

  settled-mark :
      (g i : String) (at : Time)
      → KeepsQuery (λ c d. IsSettledIn d.inbox) (mark_inbox_processed g i at)
  unfolding mark_inbox_processed
  settled-mark g i at = record { at = λ c db e h. ground (arith, find-marked g i at db.inbox) }

  known-IsInvariant : IsInvariant (λ c d. IsKnownIn d.inbox)
  known-IsInvariant = inbox-IsInvariant IsKnownIn known-append known-mark

  pub settled-IsInvariant : IsInvariant (λ c d. IsSettledIn d.inbox)
  settled-IsInvariant = inbox-IsInvariant IsSettledIn settled-append settled-mark

  mark-settles :
      (at : Time) (db : Database) (a : Unit {0}) (db' : Database)
      → mark_inbox_processed group id at db ≡ ok (a, db')
      → IsKnownIn db.inbox
      → IsSettledIn db'.inbox
  unfolding mark_inbox_processed
  mark-settles at db a db' e h = elim (Option-cases (find_first (is_message group id) db.inbox)) [
    | inl x ↦ cc (rw x at h)
    | inr (r, x) ↦ ground (
      arith,
      find-marked group id at db.inbox,
      find_first-eq-some (is_message group id) db.inbox r,
    )
  ]

module _ (v : Option QuoteVerifier) (group : String) (f : Fact) where
  abbrev Known : Rel
  Known c d = IsKnownIn group f.event_id d.inbox

  -- Where the message is settled in the transaction, it was so before.
  abbrev KnownBefore : Rel
  KnownBefore c d =
      IsKnownIn group f.event_id d.inbox
      × (IsSettledIn group f.event_id d.inbox → IsSettledIn group f.event_id c.inbox)

  abbrev pub Settled : Rel
  Settled c d = IsSettledIn group f.event_id c.inbox

  handle_fact-Moves : Moves Known Settled (handle_fact v group f)
  unfolding handle_fact
  handle_fact-Moves =
      Moves-bind Known Known Settled _ _ (Moves-Keeps Known _ (load_order-Keeps Known i _)) λ order.
        Moves-bind Known Known Settled _ _ (Moves-Keeps Known _ (Keeps-now_utc Known)) λ now.
          Moves-bind Known Known Settled _ _
            (Moves-Keeps Known _ (apply_fact-Keeps Known i v order f now _))
            λ _.
              Moves-bind Known (λ c d. IsSettledIn group f.event_id d.inbox) Settled _ _
                (Moves-statement _ _ _
                  (λ c db a db' e h. mark-settles group f.event_id now db a db' e h))
                λ _. Moves-commit _ _ (λ c d h. h)
    where
      i : IsInvariant Known
      i = known-IsInvariant group f.event_id

  -- The row that GetInbox returns.
  get_inbox-row :
      (c db : Database) (r : InboxRow) (db' : Database)
      → get_inbox group f.event_id db ≡ ok (r, db')
      → KnownBefore c db
      → KnownBefore c db' × (is_settled r.status ≡ true → IsSettledIn group f.event_id c.inbox)
  unfolding get_inbox
  get_inbox-row c db r db' e h =
      elim (Option-cases (find_first (is_message group f.event_id) db.inbox)) [
        | inl x ↦ cc (rw x at e)
        | inr (q, x) ↦ ground (arith, h.1)
      ]

  handle_known-Moves : Moves KnownBefore Settled (handle_known v group f)
  unfolding handle_known
  handle_known-Moves =
      Moves-statement_bind KnownBefore
        (λ r c d.
          KnownBefore c d × (is_settled r.status ≡ true → IsSettledIn group f.event_id c.inbox))
        Settled _ _ get_inbox-row
        λ r.
          Moves-if _ _ (is_settled r.status) _ _ (λ e. Moves-skip _ _ (λ c d h. h.1 e))
            (λ e. record { at = λ env w a h x. handle_fact-Moves.at env w a h.0.0 x })

  insert_inbox-known :
      (at : Time) (hash : String) (c db : Database) (n : ℕ) (db' : Database)
      → insert_inbox (received_row group f hash at) db ≡ ok (n, db')
      → (IsSettledIn group f.event_id db.inbox → IsSettledIn group f.event_id c.inbox)
      → KnownBefore c db'
  unfolding insert_inbox
  insert_inbox-known at hash c db n db' e h =
      elim (Option-cases (find_first (is_message group f.event_id) db.inbox)) [
        | inl x ↦ ground (
          arith,
          find_first-append_none (is_message group f.event_id) db.inbox
              (received_row group f hash at) x own,
        )
        | inr (q, x) ↦ ground (arith, h)
      ]
    where
      own : is_message group f.event_id (received_row group f hash at) ≡ true
      own = rw (eq_refl group, eq_refl f.event_id)

  -- `ProcessFact` past the tests on the envelope.
  pub fact_transaction-Moves :
      (hash : String) → Moves (λ c d. Unit {0}) Settled (fact_transaction v group f hash)
  unfolding fact_transaction
  fact_transaction-Moves hash =
      Moves-transaction (λ c. Unit {0}) (λ c. IsSettledIn group f.event_id c.inbox) Same _
        (λ c _ h. h)
        (Moves-bind Same Same Settled _ _ (Moves-Keeps Same _ (Keeps-now_utc Same)) λ at.
          Moves-bind Same KnownBefore Settled _ _
            (Moves-statement _ _ _ (insert_inbox-known at hash))
            λ n.
              Moves-if _ _ (n == 0) _ _ (λ e. handle_known-Moves)
                (λ e. record { at = λ env w a h x. handle_fact-Moves.at env w a h.0 x }))
    where
      Same : Rel
      Same c d = IsSettledIn group f.event_id d.inbox → IsSettledIn group f.event_id c.inbox
