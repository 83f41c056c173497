-- ===== src/Schema/Canonical.antt =====
-- state/canonical.ts: JSON values and their canonical text. `JSON.stringify` is the platform's; a
-- natural number is held as one, and any other number, which is finite, by its text.
use Prim.Native.String.{compare}
use Prim.Native.Nat.{Ordering}
use navis.Base.{
  ℕ, String, Bool, Option, none, some, List, [], ◌∷◌, Dict, ◌==◌, string_eq, if◌then◌else◌,
}

mutual
  pub data Value : Type 0 where
    null : Value
    flag : Bool → Value
    num : ℕ → Value
    decimal : String → Value
    str : String → Value
    arr : Elements → Value
    obj : Members → Value

  pub data Members : Type 0 where
    no_more : Members
    member : String → Value → Members → Members

  pub data Elements : Type 0 where
    no_element : Elements
    element : Value → Elements → Elements

-- a key at its place among keys in order
unfoldable pub insert_field : String → Value → Members → Members
insert_field k v no_more = member k v no_more
insert_field k v (member j w rest) = elim (compare k j) [
  | Ordering.gt ↦ member j w (insert_field k v rest)
  | other ↦ member k v (member j w rest)
]

-- `sortValue`
unfoldable mutual
  unfolding insert_field

  pub sort_value : Value → Value
  sort_value (arr xs) = arr (sort_items xs)
  sort_value (obj fs) = obj (sort_fields fs)
  sort_value v = v

  pub sort_items : Elements → Elements
  sort_items no_element = no_element
  sort_items (element x xs) = element (sort_value x) (sort_items xs)

  pub sort_fields : Members → Members
  sort_fields no_more = no_more
  sort_fields (member k v rest) = insert_field k (sort_value v) (sort_fields rest)

-- `canonicalJson`, with the `JSON.stringify` of the platform
abbrev pub canonical_json : (Value → String) → Value → String
canonical_json stringify v = stringify (sort_value v)

-- `canonicalEquals`
abbrev pub canonical_equals : (Value → String) → Value → Value → Bool
canonical_equals stringify a b = canonical_json stringify a == canonical_json stringify b

unfoldable pub get_field : String → Members → Option Value
get_field k no_more = none
get_field k (member j v rest) = if j == k then some v else get_field k rest

unfoldable pub field_names : Members → List String
field_names no_more = []
field_names (member k v rest) = k ∷ field_names rest

-- an object as its entries, and the entries as an object
unfoldable pub entries : Members → Dict Value
entries no_more = []
entries (member k v rest) = (k, v) ∷ entries rest

unfoldable pub object : Dict Value → Members
object [] = no_more
object ((k, v) ∷ rest) = member k v (object rest)
