-- ===== src/Protocol/JsonMerge/Tests.antt =====
-- Runs of `mergeJsonValues`.
use gib_sync.Prelude.{
  ◌≡◌, refl, ℕ, String, Bool, true, false, Option, none, some, List, [], ◌∷◌, ◌==◌, string_eq, not,
}
use gib_sync.Prelude.Text.{Text, text}
use gib_sync.Prelude.Result.{ok, err}
use gib_sync.Protocol.JsonMerge.{
  JsonValue, number, string, array, object, Items, no_items, item, Fields, no_fields, field, Value,
  Merged, DepthError, Numbers, equal, too_deep, merge, merge_json_values,
}

abbrev digits : Numbers
digits = record { written = text; is_safe_positive = λ n. not (n == "0") }

abbrev setting : String → String → Fields → Fields
setting name value fields = field (text name) (number value) fields

abbrev old : Value
old = some (object (setting "size" "1" (setting "zoom" "2" (setting "gone" "3" no_fields))))

abbrev mine : Value
mine = some (object (setting "size" "5" (setting "zoom" "2" (setting "gone" "3" no_fields))))

abbrev theirs : Value
theirs = some (object (setting "zoom" "4" (setting "new" "6" (setting "size" "1" no_fields))))

-- Each side's own edits, additions and removals are kept.
fields_merge :
    merge_json_values digits true false old mine theirs
    ≡ ok (record {
      value = some (object (setting "size" "5" (setting "zoom" "4" (setting "new" "6" no_fields))));
      overlaps = 0;
    })
unfolding merge_json_values gib_sync.Protocol.JsonMerge.same_value gib_sync.Prelude.Text.text_beq
fields_merge = refl

order_is_ignored :
    equal theirs
      (some (object (setting "size" "1" (setting "new" "6" (setting "zoom" "4" no_fields)))))
    ≡ true
unfolding gib_sync.Protocol.JsonMerge.same_value gib_sync.Prelude.Text.text_beq
order_is_ignored = refl

abbrev bookmark : String → String → Items → Items
bookmark ctime title more =
    item
      (object (
        setting "ctime" ctime (
          field (text "type") (string (text "file"))
            (field (text "title") (string (text title)) no_fields))))
      more

-- Bookmarks are records by their kind and time; elsewhere such an array is one value.
bookmarks_merge :
    merge_json_values digits true true
      (some (array no_items))
      (some (array (bookmark "7" "a" no_items)))
      (some (array (bookmark "8" "b" no_items)))
    ≡ ok (record {
      value = some (array (bookmark "7" "a" (bookmark "8" "b" no_items)));
      overlaps = 0;
    })
unfolding merge_json_values gib_sync.Protocol.JsonMerge.same_value gib_sync.Prelude.Text.text_beq
bookmarks_merge = refl

arrays_overlap :
    merge_json_values digits true false
      (some (array no_items))
      (some (array (bookmark "7" "a" no_items)))
      (some (array (bookmark "8" "b" no_items)))
    ≡ ok (record { value = some (array (bookmark "7" "a" no_items)); overlaps = 1 })
unfolding merge_json_values gib_sync.Protocol.JsonMerge.same_value gib_sync.Prelude.Text.text_beq
arrays_overlap = refl

nothing_left : merge digits true false 1 old mine theirs ≡ err too_deep
unfolding merge gib_sync.Protocol.JsonMerge.same_value gib_sync.Prelude.Text.text_beq
nothing_left = refl
