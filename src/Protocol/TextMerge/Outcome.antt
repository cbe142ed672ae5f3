-- ===== src/Protocol/TextMerge/Outcome.antt =====
-- What a caller of `mergeText` (packages/protocol/src/text-merge.ts) may rely on.
use gib_sync.Prelude.{
  ℕ, ◌≤◌, ◌+◌, ◌≡◌, Bool, true, false, Option, none, some, List, [], keep, some_of, arith, ltb,
  length, if◌then◌else◌, ◌==◌,
}
use gib_sync.Prelude.Text.{Text, text_eq, text_beq_iff}
use gib_sync.Prelude.Sorting.{sort}
use gib_sync.Protocol.TextMerge.Groups.{components}
use gib_sync.Protocol.Model.{Side}
use gib_sync.Protocol.TextMerge.{
  Class, Engine, Hunk, MergeResult, MergeKind, large_conflict, merge_fallback, Reason, not_compared,
  too_many_tokens, text_too_large,
}
use gib_sync.Protocol.TextMerge.Merge.{
  merge_text, side_text, settle, compare_and_settle, select, assemble, mixed, total_words,
  all_lines, by_start, settle_or_fall_back, judged, fallback, done,
}

-- The kinds of a result that needs the user's attention.
abbrev pub needs_attention : MergeKind → Bool
needs_attention large_conflict = true
needs_attention merge_fallback = true
needs_attention _ = false

-- What a result owes to the preferred version where it is marked as a conflict, and where it is not.
abbrev pub Fair : Bool → Text → MergeResult → Type 0
Fair true preferred r = r.merged_text ≡ preferred
Fair false preferred r = (r.overlap_words ≤ 20) × (r.overlap_lines ≤ 2)

-- A result that is marked as a conflict is the preferred version as it was, and its kind says so;
-- one that is not marked stays within the limits of an overlap.
pub record IsHonest (preferred : Text) (r : MergeResult) : Type 0 where
  pub fair : Fair r.conflicted preferred r
  pub told : r.conflicted ≡ needs_attention r.kind

judged-IsHonest :
    (preferred : Text) (some_mixed : Bool) (words lines : ℕ) (t : Option Text)
    → IsHonest preferred (judged preferred some_mixed words lines t)
judged-IsHonest preferred true words lines none = ground arith
judged-IsHonest preferred true words lines (some t) = ground arith
judged-IsHonest preferred false words lines none = ground arith
judged-IsHonest preferred false words lines (some t) = ground arith

fallback-IsHonest : (preferred : Text) (why : Reason) → IsHonest preferred (fallback preferred why)
fallback-IsHonest preferred why = ground arith

done-IsHonest : (preferred t : Text) → IsHonest preferred (done t)
done-IsHonest preferred t = ground arith

settle-IsHonest :
    (class_of : Text → Class) (base : List Text) (side : Side) (preferred : Text)
    (all : Option (List Hunk))
    → IsHonest preferred (settle_or_fall_back class_of base side preferred all)
unfolding settle
settle-IsHonest class_of base side preferred none = fallback-IsHonest preferred not_compared
settle-IsHonest class_of base side preferred (some all) =
    let groups = components all in
    let mixed_groups = keep mixed groups in
    judged-IsHonest preferred (some_of mixed groups) (total_words class_of base mixed_groups)
      (length (all_lines base mixed_groups []))
      (assemble base 0 (sort by_start (select side groups)))

if-IsHonest :
    (preferred : Text) (b : Bool) (r s : MergeResult)
    → IsHonest preferred r
    → IsHonest preferred s
    → IsHonest preferred (if b then r else s)
if-IsHonest preferred true r s h k = h
if-IsHonest preferred false r s h k = k

module _ (E : Engine) (base_text local_text remote_text : Text) (preferred : Side) where
  compare-IsHonest :
      IsHonest
        (side_text preferred local_text remote_text)
        (compare_and_settle E base_text local_text remote_text preferred)
  unfolding compare_and_settle
  compare-IsHonest =
      if-IsHonest (side_text preferred local_text remote_text) _ _ _
        (fallback-IsHonest _ too_many_tokens) (settle-IsHonest E.class_of _ preferred _ _)

  -- Whatever the comparison finds or fails to find: a result that is marked as a conflict is the
  -- preferred version unchanged, and its kind says that it was not merged; a result that is not
  -- marked has overlaps of 20 words and 2 lines at most.
  pub merge_text-IsHonest :
      IsHonest
        (side_text preferred local_text remote_text)
        (merge_text E base_text local_text remote_text preferred)
  unfolding merge_text
  merge_text-IsHonest =
      let wanted = side_text preferred local_text remote_text in
      if-IsHonest wanted (local_text == remote_text) _ _ (done-IsHonest wanted local_text) (
        if-IsHonest wanted (local_text == base_text) _ _ (done-IsHonest wanted remote_text) (
          if-IsHonest wanted (remote_text == base_text) _ _ (done-IsHonest wanted local_text) (
            if-IsHonest wanted
              (ltb 750000 (length base_text + length local_text + length remote_text)) _ _
              (fallback-IsHonest wanted text_too_large) compare-IsHonest)))

-- Where one side has left the base alone, the other side's text is taken whole, without a conflict.
pub merge_text-one_sided :
    (E : Engine) (base_text other_text : Text) (preferred : Side)
    → (merge_text E base_text base_text other_text preferred ≡ done other_text)
      × (merge_text E base_text other_text base_text preferred ≡ done other_text)
unfolding merge_text
merge_text-one_sided E base_text other_text preferred = (
  ground (arith, text_beq_iff base_text other_text, text_beq_iff base_text base_text),
  ground (arith, text_beq_iff other_text base_text, text_beq_iff base_text base_text),
)
