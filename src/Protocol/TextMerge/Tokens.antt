-- ===== src/Protocol/TextMerge/Tokens.antt =====
-- Tokens and hunks lose nothing (packages/protocol/src/text-merge.ts).
use gib_sync.Prelude.{◌≡◌, refl, ap, ◌∙◌, List, [], ◌∷◌, ◌++◌, map, arith}
use gib_sync.Prelude.Text.{Text}
use mathlib.Core.List.{append_assoc}
use gib_sync.Protocol.TextMerge.{Class, space, word, other, points, glue, runs, tokenize, concat}

concat-points : (s : Text) → concat (points s) ≡ s
unfolding points concat
concat-points [] = refl
concat-points (c ∷ []) = refl
concat-points (c ∷ d ∷ s) = ground (arith, concat-points s, concat-points (d ∷ s))

abbrev texts : List (Class × Text) → List Text
texts = map (λ r. r.1)

concat-glue :
    (c : Class) (p : Text) (ts : List (Class × Text))
    → concat (texts (glue c p ts)) ≡ p ++ concat (texts ts)
unfolding concat
concat-glue space p ((space, t) ∷ ts) = append_assoc p t (concat (texts ts))
concat-glue word p ((word, t) ∷ ts) = append_assoc p t (concat (texts ts))
concat-glue space p [] = refl
concat-glue space p ((word, t) ∷ ts) = refl
concat-glue space p ((other, t) ∷ ts) = refl
concat-glue word p [] = refl
concat-glue word p ((space, t) ∷ ts) = refl
concat-glue word p ((other, t) ∷ ts) = refl
concat-glue other p ts = refl

concat-runs :
    (class_of : Text → Class) (ps : List Text) → concat (texts (runs class_of ps)) ≡ concat ps
unfolding runs concat
concat-runs class_of [] = refl
concat-runs class_of (p ∷ ps) =
    concat-glue (class_of p) p (runs class_of ps) ∙ ap (λ t. p ++ t) (concat-runs class_of ps)

-- The tokens of a text, joined, are the text.
pub concat-tokenize : (class_of : Text → Class) (s : Text) → concat (tokenize class_of s) ≡ s
unfolding tokenize
concat-tokenize class_of s = concat-runs class_of (points s) ∙ concat-points s
