-- ===== src/Protocol/TextMerge.antt =====
-- packages/protocol/src/text-merge.ts: the three-way merge of texts by tokens. The comparison of
-- two token lists (`diffArrays` of the package diff) is a parameter, and so is Unicode's table of
-- spaces, letters and digits.
pub mod Tokens
pub mod Groups
pub mod Merge
pub mod Hunks
pub mod Outcome
pub mod Tests
use gib_sync.Prelude.{
  ℕ, ◌+◌, ◌-◌, ◌*◌, Bool, true, false, ◌&&◌, ◌||◌, not, Option, none, some, List, [], ◌∷◌, ◌++◌,
  map, keep, some_of, length, take, drop, contains, min, max, leb, ltb, if◌then◌else◌, ◌==◌, nat_eq,
}
use gib_sync.Prelude.Text.{Text, text_eq}
use gib_sync.Prelude.Sorting.{sort}
use gib_sync.Protocol.Model.{Side, local, remote}

-- How a code point counts for the tokens.
pub data Class : Type 0 where
  space word other : Class

-- A run of tokens that the comparison finds on both sides, or on one.
pub record Part : Type 0 where
  pub value : List Text
  pub added : Bool
  pub removed : Bool

pub record Engine : Type 0 where
  pub class_of : Text → Class
  -- `none` where the comparison exceeds its budget
  pub diff_arrays : List Text → List Text → Option (List Part)

pub record Hunk : Type 0 where
  pub start : ℕ
  pub remove : ℕ
  pub add : List Text
  pub side : Side

pub data MergeKind : Type 0 where
  merged small_overlap large_conflict merge_fallback : MergeKind

pub data Reason : Type 0 where
  no_reason text_too_large too_many_tokens not_compared not_assembled : Reason

pub record MergeResult : Type 0 where
  pub merged_text : Text
  pub conflicted : Bool
  pub kind : MergeKind
  pub overlap_words : ℕ
  pub overlap_lines : ℕ
  pub reason : Reason

-- A regular expression with the flag `u` reads a pair of surrogates as one code point.
abbrev is_pair : ℕ → ℕ → Bool
is_pair c d = leb 0xd800 c && leb c 0xdbff && leb 0xdc00 d && leb d 0xdfff

unfoldable pub points : Text → List Text
points [] = []
points (c ∷ []) = (c ∷ []) ∷ []
points (c ∷ d ∷ s) =
    let paired = points s in
    let single = points (d ∷ s) in if is_pair c d then (c ∷ d ∷ []) ∷ paired else (c ∷ []) ∷ single

-- Spaces and word characters join the run that follows; anything else stands alone.
abbrev pub glue : Class → Text → List (Class × Text) → List (Class × Text)
glue space p ((space, t) ∷ ts) = (space, p ++ t) ∷ ts
glue word p ((word, t) ∷ ts) = (word, p ++ t) ∷ ts
glue c p ts = (c, p) ∷ ts

unfoldable pub runs : (Text → Class) → List Text → List (Class × Text)
runs class_of [] = []
runs class_of (p ∷ ps) = glue (class_of p) p (runs class_of ps)

unfoldable pub tokenize : (Text → Class) → Text → List Text
unfolding points runs
tokenize class_of value = map (λ r. r.1) (runs class_of (points value))

-- `tokens.join("")`
unfoldable pub concat : List Text → Text
concat [] = []
concat (t ∷ ts) = t ++ concat ts

abbrev pub changed : Part → Bool
changed p = p.added || p.removed

abbrev pub fresh_hunk : Side → ℕ → Option Hunk → Hunk
fresh_hunk side i none = record { start = i; remove = 0; add = []; side = side }
fresh_hunk side i (some h) = h

abbrev pub grow : Hunk → Part → Hunk
grow h p = record h {
  remove = if p.removed then h.remove + length p.value else h.remove;
  add = if p.added then h.add ++ p.value else h.add;
}

abbrev pub close : Option Hunk → List Hunk
close none = []
close (some h) = h ∷ []

-- `current` is the hunk of the inner loop, while it runs.
unfoldable pub scan : Side → Option Hunk → ℕ → List Part → List Hunk
scan side current i [] = close current
scan side current i (p ∷ ps) =
    let inside =
      scan side (some (grow (fresh_hunk side i current) p))
        (if p.removed then i + length p.value else i) ps in
    let outside = scan side none (i + length p.value) ps in
    if changed p then inside else close current ++ outside

abbrev pub hunks_of : Side → Option (List Part) → Option (List Hunk)
hunks_of side none = none
hunks_of side (some parts) = some (scan side none 0 parts)

unfoldable pub hunks : Engine → List Text → List Text → Side → Option (List Hunk)
unfolding scan
hunks E base changed_tokens side = hunks_of side (E.diff_arrays base changed_tokens)

abbrev pub end_of : Hunk → ℕ
end_of h = h.start + h.remove
