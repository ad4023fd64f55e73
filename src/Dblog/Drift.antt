-- ===== src/Dblog/Drift.antt =====
-- `_drift`: the phrase that names what moved between two lists of columns.
use Prim.Native.Nat.{Ordering}
use Prim.Native.String.{compare, ◌++◌ as ◌<>◌}
use text.Mathlib.Text.{◌==◌ as str_eq}
use pydblog.Builtins.{join}
use pydblog.Prelude.{String, Bool, not, List, [], ◌∷◌, ◌++◌, keep, any}

abbrev pub member : List String → String → Bool
member names n = any (str_eq n) names

-- A sorted list with one more name, unless it is there.
insert_sorted : String → List String → List String
insert_sorted n [] = n ∷ []
insert_sorted n (m ∷ ms) =
    let rest = insert_sorted n ms in
    elim (compare n m) [ Ordering.lt ↦ n ∷ m ∷ ms | Ordering.eq ↦ m ∷ ms | Ordering.gt ↦ m ∷ rest ]

-- `sorted(set(names))`, by code points.
unfoldable pub sorted_set : List String → List String
unfolding insert_sorted
sorted_set [] = []
sorted_set (n ∷ names) = insert_sorted n (sorted_set names)

-- `sorted(set(a) - set(b))`
unfoldable pub sorted_difference : List String → List String → List String
unfolding sorted_set
sorted_difference a b = sorted_set (keep (λ n. not (member b n)) a)

abbrev part : String → List String → List String
part verb [] = []
part verb (n ∷ names) = (verb <> join ", " (n ∷ names)) ∷ []

abbrev or_type : List String → List String
or_type [] = "changed the type of a column it still names the same" ∷ []
or_type (p ∷ parts) = p ∷ parts

unfoldable pub drift : List String → List String → String
unfolding sorted_difference join
drift before after =
    let gained = sorted_difference after before in
    let lost = sorted_difference before after in
    join " and " (or_type (part "gained " gained ++ part "lost " lost))
