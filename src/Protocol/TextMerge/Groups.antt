-- ===== src/Protocol/TextMerge/Groups.antt =====
-- packages/protocol/src/text-merge.ts: hunks that touch are one component, and its size decides
-- whether it is settled.
use gib_sync.Prelude.{
  ℕ, ◌+◌, ◌-◌, Bool, true, false, ◌&&◌, ◌||◌, not, List, [], ◌∷◌, ◌++◌, map, keep, some_of, length,
  take, drop, contains, min, max, leb, ltb, if◌then◌else◌, ◌==◌, nat_eq,
}
use gib_sync.Prelude.Text.{Text, text_eq}
use gib_sync.Prelude.Sorting.{sort}
use gib_sync.Protocol.TextMerge.{Class, word, Hunk, points, concat, end_of}

-- a.start-b.start||a.remove-b.remove
abbrev pub by_place : Hunk → Hunk → Bool
by_place a b = ltb a.start b.start || (a.start == b.start && leb a.remove b.remove)

abbrev pub group_of : List Hunk → List (List Hunk)
group_of [] = []
group_of (h ∷ hs) = (h ∷ hs) ∷ []

-- The loop of `components`: the current group, its end, and whether an insertion stands there.
unfoldable pub gather : List Hunk → ℕ → Bool → List Hunk → List (List Hunk)
gather group e insertion_at_end [] = group_of group
gather group e insertion_at_end (h ∷ hs) =
    let touches = ltb h.start e || (h.start == e && (h.remove == 0 || insertion_at_end)) in
    let connects = not (length group == 0) && touches in
    let finished = if connects then [] else group_of group in
    let group' = if connects then group ++ (h ∷ []) else h ∷ [] in
    let e' = if connects then e else h.start in
    let longer = ltb e' (end_of h) in
    let e'' = if longer then end_of h else e' in
    let kept = connects && not longer && insertion_at_end in
    finished ++ gather group' e'' (kept || (h.remove == 0 && h.start == e'')) hs

unfoldable pub components : List Hunk → List (List Hunk)
unfolding gather
components hs = gather [] 0 false (sort by_place hs)

-- `Math.min(...)` and `Math.max(...)` on at least one number
abbrev least : List ℕ → ℕ
least [] = 0
least (n ∷ []) = n
least (n ∷ m ∷ ms) = min n (least (m ∷ ms))

abbrev greatest : List ℕ → ℕ
greatest [] = 0
greatest (n ∷ ns) = max n (greatest ns)

abbrev is_word : Class → Bool
is_word word = true
is_word _ = false

-- word.test(token)
abbrev has_word : (Text → Class) → Text → Bool
has_word class_of token = some_of (λ p. is_word (class_of p)) (points token)

abbrev newlines : Text → ℕ
newlines t = length (keep (λ c. c == 0x0a) t)

abbrev pub slice : ℕ → ℕ → List Text → List Text
slice from to ts = take (to - from) (drop from ts)

abbrev start_of : List Hunk → ℕ
start_of component = least (map (λ h. h.start) component)

abbrev samples : List Text → List Hunk → List (List Text)
samples base component =
    slice (start_of component) (greatest (map end_of component)) base ∷ map (λ h. h.add) component

unfoldable pub scale_words : (Text → Class) → List Text → List Hunk → ℕ
scale_words class_of base component =
    greatest (map (λ ts. length (keep (has_word class_of) ts)) (samples base component))

unfoldable pub scale_lines : List Text → List Hunk → ℕ
scale_lines base component =
    greatest (map (λ ts. newlines (concat ts) + 1) (samples base component))

-- first, first + 1, …, added to a set
abbrev pub add_lines : ℕ → ℕ → List ℕ → List ℕ
add_lines first ℕ.zero lines = lines
add_lines first (ℕ.suc n) lines =
    add_lines (first + 1) n (if contains lines first then lines else lines ++ (first ∷ []))

unfoldable pub affected_lines : List Text → List Hunk → List ℕ → List ℕ
affected_lines base component lines =
    add_lines (newlines (concat (take (start_of component) base)) + 1) (scale_lines base component)
      lines
