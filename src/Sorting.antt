-- ===== src/Sorting.antt =====
-- Go's `sort.Strings`, and the sets that the code builds with a map before it sorts them.
use Prim.Native.Char.{code}
use Prim.Native.String.{[] as empty, ◌∷◌ as ◌∷ᶜ◌}
use stream_weave.Prelude.{
  String, Bool, true, false, ◌||◌, List, [], ◌∷◌, str_eq, ltb, ◌==◌, if◌then◌else◌,
}

-- The order of strings by their characters, which is the order of their bytes in UTF-8.
abbrev pub str_leb : String → String → Bool
str_leb empty t = true
str_leb (c ∷ᶜ s) empty = false
str_leb (c ∷ᶜ s) (d ∷ᶜ t) =
    let rest = str_leb s t in if code c == code d then rest else ltb (code c) (code d)

module _ {A : Type 0} (leq : A → A → Bool) where
  abbrev pub insert_by : A → List A → List A
  insert_by x [] = x ∷ []
  insert_by x (y ∷ ys) = let rest = insert_by x ys in if leq x y then x ∷ y ∷ ys else y ∷ rest

  unfoldable pub sort_by : List A → List A
  sort_by [] = []
  sort_by (x ∷ xs) = insert_by x (sort_by xs)

abbrev pub member : String → List String → Bool
member x [] = false
member x (y ∷ ys) = str_eq x y || member x ys

-- The loop over the values with the map `seen`: what it appends to the result.
abbrev pub unseen : List String → List String → List String
unseen seen [] = []
unseen seen (x ∷ xs) =
    let kept = unseen (x ∷ seen) xs in
    let dropped = unseen seen xs in if member x seen then dropped else x ∷ kept

unfoldable pub unique_sorted : List String → List String
unfolding sort_by
unique_sorted xs = sort_by str_leb (unseen [] xs)
