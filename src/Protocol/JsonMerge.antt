-- ===== src/Protocol/JsonMerge.antt =====
-- packages/protocol/src/json-merge.ts: `mergeJsonValues`. A number is given by a text that
-- `Object.is` tells apart; what else is read of it is a parameter. The keys of an object stand in
-- the order in which they were set, also those that look like an index.
pub mod Tests
use gib_sync.Prelude.{
  ℕ, zero, suc, ◌+◌, String, Bool, true, false, ◌&&◌, ◌||◌, not, Option, none, some, List, [], ◌∷◌,
  ◌++◌, map, contains, is_some, if◌then◌else◌, ◌==◌, string_eq, bool_eq,
}
use gib_sync.Prelude.Text.{Text, text, text_eq}
use gib_sync.Prelude.Dict.{Dict, lookup, insert, keys}
use gib_sync.Prelude.Result.{Result, ok, err, ◌>>=◌, ◌>>◌}

mutual
  pub data JsonValue : Type 0 where
    null : JsonValue
    boolean : Bool → JsonValue
    number : String → JsonValue
    string : Text → JsonValue
    array : Items → JsonValue
    object : Fields → JsonValue

  pub data Items : Type 0 where
    no_items : Items
    item : JsonValue → Items → Items

  pub data Fields : Type 0 where
    no_fields : Fields
    field : Text → JsonValue → Fields → Fields

-- `none` is `missing`.
abbrev pub Value : Type 0
Value = Option JsonValue

abbrev pub field_at : Fields → Text → Value
field_at no_fields key = none
field_at (field name value fields) key = if name == key then some value else field_at fields key

abbrev pub keys_of : Fields → List Text
keys_of no_fields = []
keys_of (field name value fields) = name ∷ keys_of fields

abbrev pub knows_all : Fields → List Text → Bool
knows_all known [] = true
knows_all known (key ∷ more) = is_some (field_at known key) && knows_all known more

mutual
  pub same_value : JsonValue → JsonValue → Bool
  same_value null null = true
  same_value (boolean a) (boolean b) = a == b
  same_value (number a) (number b) = a == b
  same_value (string a) (string b) = a == b
  same_value (array xs) (array ys) = same_items xs ys
  same_value (object fs) (object gs) = same_fields fs gs && knows_all fs (keys_of gs)
  same_value a b = false

  pub same_items : Items → Items → Bool
  same_items no_items no_items = true
  same_items no_items (item y ys) = false
  same_items (item x xs) no_items = false
  same_items (item x xs) (item y ys) = same_value x y && same_items xs ys

  -- Each field of the one object stands in the other.
  pub same_fields : Fields → Fields → Bool
  same_fields no_fields gs = true
  same_fields (field name value fs) gs =
      elim (field_at gs name) [ none ↦ false | some other ↦ same_value value other ]
      && same_fields fs gs

abbrev pub equal : Value → Value → Bool
equal none none = true
equal none (some b) = false
equal (some a) none = false
equal (some a) (some b) = same_value a b

pub data DepthError : Type 0 where
  too_deep : DepthError

pub record Merged : Type 0 where
  pub value : Value
  pub overlaps : ℕ

abbrev pub taken : Value → Result DepthError Merged
taken value = ok (record { value = value; overlaps = 0 })

-- `new Set(keys)`
abbrev pub distinct : List Text → List Text → List Text
distinct seen [] = seen
distinct seen (key ∷ more) = distinct (if contains seen key then seen else seen ++ (key ∷ [])) more

-- How a number is written in a template, and `Number.isSafeInteger(n) && n > 0`.
pub record Numbers : Type 0 where
  pub written : String → Text
  pub is_safe_positive : String → Bool

module _ (N : Numbers) (bookmarks : Bool) where
  abbrev pub bookmark_key : Value → Value → Option Text
  bookmark_key (some (number ctime)) (some (string type)) =
      if bookmarks && N.is_safe_positive ctime
      then some (text "bookmark:" ++ type ++ text ":" ++ N.written ctime)
      else none
  bookmark_key ctime type = none

  abbrev pub record_key : JsonValue → Option Text
  record_key (object fields) = elim (field_at fields (text "id")) [
    | some (string id) ↦ some (text "id:string:" ++ id)
    | some (number id) ↦ some (text "id:number:" ++ N.written id)
    | other ↦ bookmark_key (field_at fields (text "ctime")) (field_at fields (text "type"))
  ]
  record_key value = none

  unfoldable pub records_from : Items → Dict Text JsonValue → Option (Dict Text JsonValue)
  unfolding lookup insert
  records_from no_items found = some found
  records_from (item value more) found = elim (record_key value) [
    | none ↦ none
    | some key ↦
        if is_some (lookup key found) then none else records_from more (insert key value found)
  ]

  abbrev pub records : Value → Option (Dict Text JsonValue)
  records none = some []
  records (some (array items)) = records_from items []
  records (some other) = none

module _ (N : Numbers) (prefer_local bookmarks : Bool) where
  -- The loop over the keys: what has a value is kept, and the overlaps add up.
  unfoldable pub merge_each :
      (Text → Result DepthError Merged) → List Text → Result DepthError (Dict Text JsonValue × ℕ)
  merge_each step [] = ok ([], 0)
  merge_each step (key ∷ more) = do
    first ← step key
    rest ← merge_each step more
    ok (elim first.value [ none ↦ rest.0 | some v ↦ (key, v) ∷ rest.0 ], first.overlaps + rest.1)

  abbrev pub to_fields : Dict Text JsonValue → Fields
  to_fields [] = no_fields
  to_fields ((key, value) ∷ output) = field key value (to_fields output)

  abbrev pub to_items : Dict Text JsonValue → Items
  to_items [] = no_items
  to_items ((key, value) ∷ output) = item value (to_items output)

  abbrev pub baseline : Value → Fields
  baseline (some (object fields)) = fields
  baseline other = no_fields

  abbrev pub overlap : Value → Value → Result DepthError Merged
  overlap l r = ok (record { value = if prefer_local then l else r; overlaps = 1 })

  -- `step` merges one level deeper.
  module _ (step : Value → Value → Value → Result DepthError Merged) where
    abbrev pub merge_fields : Fields → Fields → Fields → Result DepthError Merged
    merge_fields b l r = do
      output ←
          merge_each (λ (key : Text). step (field_at b key) (field_at l key) (field_at r key))
            (distinct [] (keys_of b ++ keys_of l ++ keys_of r))
      ok (record { value = some (object (to_fields output.0)); overlaps = output.1 })

    abbrev pub merge_records : (b l r : Dict Text JsonValue) → Result DepthError Merged
    merge_records b l r = do
      output ←
          merge_each (λ (key : Text). step (lookup key b) (lookup key l) (lookup key r))
            (distinct []
              (if prefer_local then keys l ++ keys r ++ keys b else keys r ++ keys l ++ keys b))
      ok (record { value = some (array (to_items output.0)); overlaps = output.1 })

    abbrev pub merge_found :
        Option (Dict Text JsonValue)
        → Option (Dict Text JsonValue)
        → Option (Dict Text JsonValue)
        → (l r : Value) → Result DepthError Merged
    merge_found (some b) (some l) (some r) left right = merge_records b l r
    merge_found b l r left right = overlap left right

    abbrev pub merge_parts : Value → Value → Value → Result DepthError Merged
    merge_parts b (some (object l)) (some (object r)) = merge_fields (baseline b) l r
    merge_parts b (some (array l)) (some (array r)) =
        merge_found (records N bookmarks b) (records N bookmarks (some (array l)))
          (records N bookmarks (some (array r))) (some (array l)) (some (array r))
    merge_parts b l r = overlap l r

  -- The first number is how many levels are still allowed.
  unfoldable pub merge : ℕ → Value → Value → Value → Result DepthError Merged
  unfolding records_from merge_each lookup
  merge zero b l r = err too_deep
  merge (suc n) b l r =
      if equal l r
      then taken l
      else if equal l b
      then taken r
      else if equal r b
      then taken l
      else merge_parts (merge n) b l r

  -- Depths 0 to 100 are allowed.
  unfoldable pub merge_json_values : (base local remote : Value) → Result DepthError Merged
  unfolding merge
  merge_json_values base local remote = merge 101 base local remote
