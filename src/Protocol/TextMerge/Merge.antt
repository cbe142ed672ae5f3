-- ===== src/Protocol/TextMerge/Merge.antt =====
-- packages/protocol/src/text-merge.ts: `mergeText`.
use gib_sync.Prelude.{
  ℕ, ◌+◌, Bool, true, false, ◌&&◌, ◌||◌, Option, none, some, List, [], ◌∷◌, ◌++◌, keep, some_of,
  length, drop, leb, ltb, if◌then◌else◌, ◌==◌, nat_eq,
}
use gib_sync.Prelude.Text.{Text, text_eq}
use gib_sync.Prelude.Sorting.{sort}
use gib_sync.Protocol.Model.{Side, local, remote}
use gib_sync.Protocol.TextMerge.{
  Class, Engine, Hunk, MergeKind, merged, small_overlap, large_conflict, merge_fallback, Reason,
  no_reason, text_too_large, too_many_tokens, not_compared, not_assembled, MergeResult, tokenize,
  concat, hunks, end_of,
}
use gib_sync.Protocol.TextMerge.Groups.{components, scale_words, affected_lines, slice}

abbrev side_is : Side → Side → Bool
side_is local local = true
side_is remote remote = true
side_is _ _ = false

abbrev from_side : Side → Hunk → Bool
from_side side h = side_is side h.side

abbrev pub mixed : List Hunk → Bool
mixed component = some_of (from_side local) component && some_of (from_side remote) component

unfoldable pub select : Side → List (List Hunk) → List Hunk
select preferred [] = []
select preferred (c ∷ cs) =
    (if mixed c then keep (from_side preferred) c else c) ++ select preferred cs

abbrev pub prepend : Text → Option Text → Option Text
prepend t none = none
prepend t (some rest) = some (t ++ rest)

-- `none` is the error "selected changes unexpectedly overlap".
unfoldable pub assemble : List Text → ℕ → List Hunk → Option Text
assemble base cursor [] = some (concat (drop cursor base))
assemble base cursor (h ∷ hs) =
    let rest = assemble base (end_of h) hs in
    if ltb h.start cursor
    then none
    else prepend (concat (slice cursor h.start base) ++ concat h.add) rest

-- The order of `selected.sort((left, right) => left.start - right.start)`.
abbrev pub by_start : Hunk → Hunk → Bool
by_start a b = leb a.start b.start

abbrev pub side_text : Side → Text → Text → Text
side_text local local_text remote_text = local_text
side_text remote local_text remote_text = remote_text

abbrev pub done : Text → MergeResult
done t = record {
  merged_text = t;
  conflicted = false;
  kind = merged;
  overlap_words = 0;
  overlap_lines = 0;
  reason = no_reason;
}

abbrev pub fallback : Text → Reason → MergeResult
fallback t reason = record {
  merged_text = t;
  conflicted = true;
  kind = merge_fallback;
  overlap_words = 0;
  overlap_lines = 0;
  reason = reason;
}

abbrev pub total_words : (Text → Class) → List Text → List (List Hunk) → ℕ
total_words class_of base [] = 0
total_words class_of base (c ∷ cs) = scale_words class_of base c + total_words class_of base cs

abbrev pub all_lines : List Text → List (List Hunk) → List ℕ → List ℕ
all_lines base [] lines = lines
all_lines base (c ∷ cs) lines = all_lines base cs (affected_lines base c lines)

abbrev assembled : Text → MergeKind → ℕ → ℕ → Option Text → MergeResult
assembled preferred kind words lines none = fallback preferred not_assembled
assembled preferred kind words lines (some t) = record {
  merged_text = t;
  conflicted = false;
  kind = kind;
  overlap_words = words;
  overlap_lines = lines;
  reason = no_reason;
}

abbrev pub judged : Text → Bool → ℕ → ℕ → Option Text → MergeResult
judged preferred_text some_mixed words lines t =
    if ltb 20 words || ltb 2 lines
    then record {
      merged_text = preferred_text;
      conflicted = true;
      kind = large_conflict;
      overlap_words = words;
      overlap_lines = lines;
      reason = no_reason;
    }
    else assembled preferred_text (if some_mixed then small_overlap else merged) words lines t

-- The second `try` of `mergeText`.
unfoldable pub settle : (Text → Class) → List Text → Side → Text → List Hunk → MergeResult
unfolding components select assemble scale_words affected_lines
settle class_of base preferred preferred_text all =
    let groups = components all in
    let mixed_groups = keep mixed groups in
    judged preferred_text (some_of mixed groups) (total_words class_of base mixed_groups)
      (length (all_lines base mixed_groups []))
      (assemble base 0 (sort by_start (select preferred groups)))

abbrev pub both : Option (List Hunk) → Option (List Hunk) → Option (List Hunk)
both none right = none
both (some left) none = none
both (some left) (some right) = some (left ++ right)

abbrev pub settle_or_fall_back :
    (Text → Class) → List Text → Side → Text → Option (List Hunk) → MergeResult
settle_or_fall_back class_of base preferred preferred_text none =
    fallback preferred_text not_compared
settle_or_fall_back class_of base preferred preferred_text (some all) =
    settle class_of base preferred preferred_text all

unfoldable pub compare_and_settle : Engine → Text → Text → Text → Side → MergeResult
unfolding tokenize hunks settle
compare_and_settle E base_text local_text remote_text preferred =
    let base = tokenize E.class_of base_text in
    let mine = tokenize E.class_of local_text in
    let theirs = tokenize E.class_of remote_text in
    let preferred_text = side_text preferred local_text remote_text in
    if ltb 75000 (length base + length mine + length theirs)
    then fallback preferred_text too_many_tokens
    else settle_or_fall_back E.class_of base preferred preferred_text
        (both (hunks E base mine local) (hunks E base theirs remote))

unfoldable pub merge_text : Engine → Text → Text → Text → Side → MergeResult
unfolding compare_and_settle
merge_text E base_text local_text remote_text preferred =
    if local_text == remote_text
    then done local_text
    else if local_text == base_text
    then done remote_text
    else if remote_text == base_text
    then done local_text
    else if ltb 750000 (length base_text + length local_text + length remote_text)
    then fallback (side_text preferred local_text remote_text) text_too_large
    else compare_and_settle E base_text local_text remote_text preferred
