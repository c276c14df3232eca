-- ===== src/Prelude/Lists.antt =====
-- Lists measured by native numbers, predicates on lists, and the row operations of a table.
use Prim.Native.Nat.{ℕ, zero, suc, ◌+◌}
use mathlib.Core.Path.{◌≡◌, refl, ap}
use mathlib.Core.Bool.{Bool}
use mathlib.Core.Option.{Option, none, some}
use mathlib.Core.List.{List, [], ◌∷◌, ◌++◌}
use native.Mathlib.Omega.{arith}
use stream_weave.Prelude.Tests.{if◌then◌else◌}

module _ {ℓ} {A : Type ℓ} where
  abbrev pub length : List A → ℕ
  length [] = 0
  length (x ∷ xs) = suc (length xs)

  abbrev pub take : ℕ → List A → List A
  take zero xs = []
  take (suc n) [] = []
  take (suc n) (x ∷ xs) = x ∷ take n xs

  -- The first element that passes the test.
  abbrev pub find_first : (A → Bool) → List A → Option A
  find_first p [] = none
  find_first p (x ∷ xs) = if p x then some x else find_first p xs

  abbrev pub filter_by : (A → Bool) → List A → List A
  filter_by p [] = []
  filter_by p (x ∷ xs) = let rest = filter_by p xs in if p x then x ∷ rest else rest

  -- `UPDATE ... SET f WHERE p`: the rows that pass the test are changed in place.
  abbrev pub update_rows : (A → Bool) → (A → A) → List A → List A
  update_rows p f [] = []
  update_rows p f (x ∷ xs) = (if p x then f x else x) ∷ update_rows p f xs

  -- The number of rows that a statement with the condition `p` affects.
  abbrev pub count_rows : (A → Bool) → List A → ℕ
  count_rows p [] = 0
  count_rows p (x ∷ xs) = let rest = count_rows p xs in if p x then suc rest else rest

  abbrev pub all_rows : (A → Bool) → List A → Bool
  all_rows p [] = Bool.true
  all_rows p (x ∷ xs) = if p x then all_rows p xs else Bool.false

  pub length-append : (xs ys : List A) → length (xs ++ ys) ≡ length xs + length ys
  length-append [] ys = omega arith
  length-append (x ∷ xs) ys = omega (arith, length-append xs ys)

  pub length-update_rows :
      (p : A → Bool) (f : A → A) (xs : List A) → length (update_rows p f xs) ≡ length xs
  length-update_rows p f [] = refl
  length-update_rows p f (x ∷ xs) = ap suc (length-update_rows p f xs)

-- A predicate of every element, which computes to a tuple.
abbrev pub All {ℓ κ} : {A : Type ℓ} → (A → Type κ) → List A → Type κ
All P [] = Unit
All P (x ∷ xs) = P x × All P xs

pub All-append {ℓ κ} :
    {A : Type ℓ} (P : A → Type κ) (xs ys : List A) → All P xs → All P ys → All P (xs ++ ys)
All-append P [] ys hx hy = hy
All-append P (x ∷ xs) ys hx hy = (hx.0, All-append P xs ys hx.1 hy)

module _ {ℓ} {A : Type ℓ} where
  abbrev pub map_option : (A → A) → Option A → Option A
  map_option f none = none
  map_option f (some a) = some (f a)

  -- The first row with a key is still the first after rows are appended.
  pub find_first-append :
      (p : A → Bool) (xs ys : List A) (a : A)
      → find_first p xs ≡ some a
      → find_first p (xs ++ ys) ≡ some a
  find_first-append p [] ys a h = cc
  find_first-append p (x ∷ xs) ys a h = ground (arith, find_first-append p xs ys a)

  pub find_first-append_none :
      (p : A → Bool) (xs : List A) (y : A)
      → find_first p xs ≡ none
      → p y ≡ Bool.true
      → find_first p (xs ++ y ∷ []) ≡ some y
  find_first-append_none p [] y h k = rw k
  find_first-append_none p (x ∷ xs) y h k = ground (arith, find_first-append_none p xs y)

  -- An update that keeps the key of every row changes what is found as it changes the row.
  pub find_first-update_rows :
      (p q : A → Bool) (f : A → A)
      → ((x : A) → p (f x) ≡ p x)
      → (xs : List A)
      → find_first p (update_rows q f xs)
        ≡ map_option (λ x. if q x then f x else x) (find_first p xs)
  find_first-update_rows p q f k [] = refl
  find_first-update_rows p q f k (x ∷ xs) = ground (arith, k x, find_first-update_rows p q f k xs)

  pub find_first-eq-some :
      (p : A → Bool) (xs : List A) (a : A) → find_first p xs ≡ some a → p a ≡ Bool.true
  find_first-eq-some p [] a h = cc
  find_first-eq-some p (x ∷ xs) a h = ground (arith, find_first-eq-some p xs a)
