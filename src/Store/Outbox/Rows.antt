-- ===== src/Store/Outbox/Rows.antt =====
-- Rows of the outbox that a claim chooses by their ids: which they are, and what a lease does to them.
use stream_weave.Prelude.{
  ℕ, zero, suc, ◌≡◌, ◌≤◌, refl, sym, ap, ◌∙◌, String, Bool, true, false, ◌||◌, some, List, [], ◌∷◌,
  arith, filter_by, update_rows, take, All, map, str_eq, eq_iff, eq_refl, ltb, Bool-cases, inl, inr,
}
use stream_weave.Orders.Model.{Time}
use stream_weave.Db.Tables.{OutboxRow}
use stream_weave.Db.Messages.{is_claimable, lease, has_id, insert_by_age, by_age_onto, by_age}
use stream_weave.Store.Outbox.{OutboxEvent, event_of}

-- One of the events bears the id.
abbrev pub has_event : List OutboxEvent → String → Bool
has_event [] id = false
has_event (e ∷ events) id = str_eq e.id id || has_event events id

abbrev pub IsHeldAt : String → Time → OutboxRow → Type 0
IsHeldAt owner now r = (r.lease_owner ≡ some owner) × (is_claimable now r ≡ false)

-- One of the rows bears the id.
abbrev pub has_row : List OutboxRow → String → Bool
has_row [] id = false
has_row (r ∷ rows) id = str_eq r.id id || has_row rows id

module _ (P : OutboxRow → Type 0) where
  All-insert_by_age :
      (r : OutboxRow) (l : List OutboxRow) → P r → All P l → All P (insert_by_age r l)
  unfolding insert_by_age
  All-insert_by_age r [] h k = (h, tt)
  All-insert_by_age r (q ∷ l) h (k, ks) =
      elim (Bool-cases (ltb r.created_at.nanos q.created_at.nanos)) [
        | inl e ↦ rw e (h, (k, ks))
        | inr e ↦ rw e (k, All-insert_by_age r l h ks)
      ]

  All-by_age_onto :
      (sorted l : List OutboxRow) → All P sorted → All P l → All P (by_age_onto sorted l)
  unfolding by_age_onto
  All-by_age_onto sorted [] h k = h
  All-by_age_onto sorted (r ∷ l) h (k, ks) =
      All-by_age_onto (insert_by_age r sorted) l (All-insert_by_age r sorted k h) ks

  pub All-by_age : (l : List OutboxRow) → All P l → All P (by_age l)
  unfolding by_age
  All-by_age l k = All-by_age_onto [] l tt k

  pub All-take : (n : ℕ) (l : List OutboxRow) → All P l → All P (take n l)
  All-take zero l h = tt
  All-take (suc n) [] h = tt
  All-take (suc n) (r ∷ l) (h, hs) = (h, All-take n l hs)

  pub All-filter_by :
      (p : OutboxRow → Bool) (l : List OutboxRow)
      → All (λ r. p r ≡ true → P r) l
      → All P (filter_by p l)
  All-filter_by p [] h = tt
  All-filter_by p (r ∷ l) (h, hs) = elim (Bool-cases (p r)) [
    | inl e ↦ rw e (h e, All-filter_by p l hs)
    | inr e ↦ rw e (All-filter_by p l hs)
  ]

pub All-imp :
    {A : Type 0} (P Q : A → Type 0) (l : List A) → ((x : A) → P x → Q x) → All P l → All Q l
All-imp P Q [] f h = tt
All-imp P Q (x ∷ l) f (h, hs) = (f x h, All-imp P Q l f hs)

pub All-any : {A : Type 0} (P : A → Type 0) (l : List A) → ((x : A) → P x) → All P l
All-any P [] f = tt
All-any P (x ∷ l) f = (f x, All-any P l f)

-- Rows are chosen by their ids.
has_id-same :
    (chosen : List OutboxRow) (q r : OutboxRow)
    → str_eq q.id r.id ≡ true
    → has_id chosen q ≡ has_id chosen r
has_id-same [] q r e = refl
has_id-same (c ∷ chosen) q r e =
    cc (ap (λ s. str_eq c.id s) ((eq_iff q.id r.id).0 e), has_id-same chosen q r e)

module _ (owner : String) (until : Time) (chosen : List OutboxRow) where
  abbrev pub leased : List OutboxRow → List OutboxRow
  leased l = update_rows (has_id chosen) (lease owner until) l

  -- The events of the chosen rows
  abbrev pub given : List OutboxRow → List OutboxEvent
  given l = map event_of (filter_by (has_id chosen) l)

  lease-has_id : (c : List OutboxRow) (r : OutboxRow) → has_id c (lease owner until r) ≡ has_id c r
  lease-has_id [] r = refl
  lease-has_id (q ∷ c) r = rw (lease-has_id c r) refl

  pub given-chosen :
      (l : List OutboxRow) (r : OutboxRow)
      → has_event (given l) r.id ≡ true
      → has_id chosen r ≡ true
  given-chosen [] r h = cc
  given-chosen (q ∷ l) r h = elim (Bool-cases (has_id chosen q)) [
    | inr e ↦ given-chosen l r (rw e at h)
    | inl e ↦ elim (Bool-cases (str_eq q.id r.id)) [
      | inl s ↦ sym (has_id-same chosen q r s) ∙ e
      | inr s ↦ given-chosen l r (rw (e, s) at h)
    ]
  ]

  pub leased-held :
      (later : Time) (l : List OutboxRow)
      → later.nanos ≤ until.nanos
      → All (λ r. has_id chosen r ≡ true → IsHeldAt owner later r) (leased l)
  leased-held later [] le = tt
  leased-held later (r ∷ l) le = elim (Bool-cases (has_id chosen r)) [
    | inl e ↦ rw e ((λ k. (refl, ground arith)), leased-held later l le)
    | inr e ↦ rw e ((λ k. cc), leased-held later l le)
  ]

  pub given-stored : (l : List OutboxRow) → All (λ e. has_row l e.id ≡ true) (given l)
  given-stored [] = tt
  given-stored (r ∷ l) =
      let rest : All (λ e. has_row (r ∷ l) e.id ≡ true) (given l) =
        All-imp (λ e. has_row l e.id ≡ true) (λ e. has_row (r ∷ l) e.id ≡ true) (given l)
          (λ e k. ground (arith, k)) (given-stored l) in
      elim (Bool-cases (has_id chosen r)) [
        | inl e ↦ rw e (rw (eq_refl r.id) refl, rest)
        | inr e ↦ rw e rest
      ]

  -- While the lease runs, a row that can be claimed was not chosen.
  pub claimable-other :
      (later : Time) (l : List OutboxRow)
      → later.nanos ≤ until.nanos
      → All (λ r. is_claimable later r ≡ true → has_id chosen r ≡ false) (leased l)
  claimable-other later l le =
      All-imp _ _ (leased l)
        (λ r k claimable. elim (Bool-cases (has_id chosen r)) [
          | inl e ↦ cc ((k e).1, claimable)
          | inr e ↦ e
        ])
        (leased-held later l le)

  -- Rows chosen among others have other ids.
  other-ids :
      (rows : List OutboxRow) (r : OutboxRow)
      → All (λ c. has_id chosen c ≡ false) rows
      → has_id rows r ≡ true
      → has_id chosen r ≡ false
  other-ids [] r h e = cc
  other-ids (c ∷ rows) r (h, hs) e = elim (Bool-cases (str_eq c.id r.id)) [
    | inl s ↦ sym (has_id-same chosen c r s) ∙ h
    | inr s ↦ other-ids rows r hs (rw s at e)
  ]

  pub not_given :
      (l rows : List OutboxRow) (r : OutboxRow)
      → All (λ c. has_id chosen c ≡ false) rows
      → has_id rows r ≡ true
      → has_event (given l) r.id ≡ false
  not_given l rows r h e = elim (Bool-cases (has_event (given l) r.id)) [
    | inl k ↦ cc (given-chosen l r k, other-ids rows r h e)
    | inr k ↦ k
  ]

pub All-event_of :
    (P : OutboxEvent → Type 0) (l : List OutboxRow)
    → All (λ r. P (event_of r)) l
    → All P (map event_of l)
All-event_of P [] h = tt
All-event_of P (r ∷ l) (h, hs) = (h, All-event_of P l hs)
