-- ===== src/Relay/Backoff.antt =====
-- outboxBackoff, inboxBackoff and splitBrokers.
use stream_weave.Prelude.{
  ℕ, zero, suc, ◌≡◌, ◌≤◌, ◌*◌, ◌%◌, ◌-◌, ◌^◌, ltb, String, false, List, [], ◌∷◌, str_eq, arith,
  if◌then◌else◌, All, Bool-cases, inl, inr,
}
use stream_weave.Prelude.Int.{ℤ, pos, negsuc}
use stream_weave.Text.{split_on, trim_space}

-- time.Second, in nanoseconds
abbrev pub second : ℕ
second = 1_000_000_000

abbrev pub delays : List ℕ
delays =
    second
    ∷ 5 * second
    ∷ 30 * second
    ∷ 120 * second
    ∷ 300 * second
    ∷ 600 * second
    ∷ 900 * second
    ∷ 1800 * second
    ∷ []

-- `delays[n]`, and the last one from there on
unfoldable pub delay_at : List ℕ → ℕ → ℕ
delay_at [] n = 0
delay_at (d ∷ []) n = d
delay_at (d ∷ e ∷ rest) zero = d
delay_at (d ∷ e ∷ rest) (suc n) = delay_at (e ∷ rest) n

-- outboxBackoff; `attempts` is an int32, and a negative one counts as 0.
unfoldable pub outbox_backoff : ℤ → ℕ
outbox_backoff (pos n) = delay_at delays n
outbox_backoff (negsuc n) = delay_at delays 0

-- `int32(n)`
unfoldable pub int32 : ℕ → ℤ
int32 n = let low = n % 2 ^ 32 in if ltb low (2 ^ 31) then pos low else negsuc (2 ^ 32 - 1 - low)

-- inboxBackoff
unfoldable pub inbox_backoff : ℤ → ℕ
unfolding int32
inbox_backoff (pos (suc n)) = outbox_backoff (int32 n)
inbox_backoff _ = outbox_backoff (pos 0)

abbrev onto : String → List String → List String
onto value result = if str_eq value "" then result else value ∷ result

unfoldable pub keep_named : List String → List String
keep_named [] = []
keep_named (value ∷ values) = onto (trim_space value) (keep_named values)

-- splitBrokers
unfoldable pub split_brokers : String → List String
split_brokers raw = keep_named (split_on b',' raw)

-- A row with more attempts does not wait for a shorter time.
backoff_grows : (m n : ℕ) → m ≤ n → outbox_backoff (pos m) ≤ outbox_backoff (pos n)
unfolding outbox_backoff delay_at
backoff_grows m n h = ground arith

keep_named-named : (l : List String) → All (λ s. str_eq s "" ≡ false) (keep_named l)
unfolding keep_named
keep_named-named [] = tt
keep_named-named (value ∷ values) = elim (Bool-cases (str_eq (trim_space value) "")) [
  | inl e ↦ rw e (keep_named-named values)
  | inr e ↦ rw e (e, keep_named-named values)
]
