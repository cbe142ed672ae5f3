-- ===== src/Protocol/TextMerge/Tests.antt =====
-- Runs of packages/protocol/src/text-merge.ts with a simple comparison, and the theorems about it at
-- some of them.
use gib_sync.Prelude.{
  ℕ, ◌≡◌, refl, Bool, true, false, ◌&&◌, ◌||◌, Option, none, some, List, [], ◌∷◌, if◌then◌else◌,
  ◌==◌, leb, nat_eq,
}
use gib_sync.Prelude.Text.{Text, text, text_eq}
use gib_sync.Protocol.Model.{local}
use gib_sync.Protocol.TextMerge.{
  Class, space, word, other, Part, Engine, Hunk, MergeResult, MergeKind, small_overlap, tokenize,
  concat, hunks,
}
use gib_sync.Protocol.TextMerge.Tokens.{concat-tokenize}
use gib_sync.Protocol.TextMerge.Hunks.{Compares, before, after, assemble-hunks}
use gib_sync.Protocol.TextMerge.Merge.{merge_text, side_text, assemble}
use gib_sync.Protocol.TextMerge.Outcome.{IsHonest, merge_text-IsHonest}

abbrev plain_class : Text → Class
plain_class [] = other
plain_class (c ∷ cs) =
    if c == 0x20 || c == 0x0a then space else if leb 0x61 c && leb c 0x7a then word else other

-- The common beginning stays; the rest of the first list goes and the rest of the second comes.
plain_diff : List Text → List Text → List Part
plain_diff [] ts = record { value = ts; added = true; removed = false } ∷ []
plain_diff (s ∷ ss) [] = record { value = s ∷ ss; added = false; removed = true } ∷ []
plain_diff (s ∷ ss) (t ∷ ts) =
    let rest = plain_diff ss ts in
    if s == t
    then record { value = s ∷ []; added = false; removed = false } ∷ rest
    else record { value = s ∷ ss; added = false; removed = true }
      ∷ record { value = t ∷ ts; added = true; removed = false }
      ∷ []

abbrev plain : Engine
plain = record { class_of = plain_class; diff_arrays = λ a b. some (plain_diff a b) }

abbrev old_note : Text
old_note = text "buy milk"

abbrev my_note : Text
my_note = text "buy bread"

abbrev their_note : Text
their_note = text "buy eggs"

words : tokenize plain_class old_note ≡ text "buy" ∷ text " " ∷ text "milk" ∷ []
unfolding tokenize
words = refl

small : (merge_text plain old_note my_note their_note local).kind ≡ small_overlap
unfolding merge_text gib_sync.Prelude.Text.text_beq gib_sync.Prelude.Sorting.sort plain_diff
    gib_sync.Protocol.TextMerge.Groups.scale_lines concat
small = refl

mine_wins : (merge_text plain old_note my_note their_note local).merged_text ≡ my_note
unfolding merge_text gib_sync.Prelude.Text.text_beq gib_sync.Prelude.Sorting.sort plain_diff
    gib_sync.Protocol.TextMerge.Groups.scale_lines concat
mine_wins = refl

concat-tokenize_example : concat (tokenize plain_class old_note) ≡ old_note
concat-tokenize_example = concat-tokenize plain_class old_note

abbrev base : List Text
base = text "buy" ∷ text " " ∷ text "milk" ∷ []

abbrev changed_note : List Text
changed_note = text "buy" ∷ text " " ∷ text "oat" ∷ text " " ∷ text "milk" ∷ []

compares : Compares (plain_diff base changed_note) base changed_note
unfolding plain_diff before after gib_sync.Prelude.Text.text_beq
compares = record { old = refl; new = refl; one_sided = (refl, (refl, (refl, (refl, tt)))) }

assemble-hunks_example :
    (hs : List Hunk) × (hunks plain base changed_note local ≡ some hs)
    × (assemble base 0 hs ≡ some (concat changed_note))
assemble-hunks_example = assemble-hunks plain base changed_note local refl compares

merge_text-IsHonest_example :
    IsHonest
      (side_text local my_note their_note)
      (merge_text plain old_note my_note their_note local)
merge_text-IsHonest_example = merge_text-IsHonest plain old_note my_note their_note local
