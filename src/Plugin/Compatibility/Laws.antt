-- ===== src/Plugin/Compatibility/Laws.antt =====
-- The plugin's order of versions (plugin/src/server-compatibility.ts) against the server's.
use gib_sync.Prelude.{
  ℕ, ◌≡◌, refl, sym, ◌∙◌, ap, subst, Bool, true, false, not, ◌&&◌, ◌||◌, Option, none, some, List,
  [], ◌∷◌, ◌++◌, arith, ◌==◌, nat_eq, contains, if◌then◌else◌, Bool-cases, inl, inr, every_of,
}
use gib_sync.Prelude.Text.{Text, trim, trim_start, trim_end, is_space, keep_unless_blank}
use gib_sync.Server.Compatibility.{
  Version, Sign, compare_prereleases, compare_parsed, compare_versions, parse_version, span_digits,
  is_digit, is_label, add_unit, without_v, after_dot, digits_of, labels, fields, and_then,
}
use gib_sync.Server.Paths.{is_empty}
use gib_sync.Server.Compatibility.Gate.{is_before}
use gib_sync.Plugin.Compatibility.{
  ServerVersion, older_parsed, older_than, parse_server_version, with_flag,
}

abbrev pub has_labels : List Text → Bool
has_labels [] = false
has_labels (l ∷ ls) = true

-- What the plugin keeps of a version.
abbrev pub seen_by_plugin : Version → ServerVersion
seen_by_plugin v = record {
  major = v.major;
  minor = v.minor;
  patch = v.patch;
  prerelease = has_labels v.prerelease;
}

abbrev pub same_release : Version → Version → Bool
same_release a b = a.major == b.major && a.minor == b.minor && a.patch == b.patch

flags :
    (xs ys : List Text)
    → (has_labels xs && not (has_labels ys))
      ≡ (is_before (compare_prereleases xs ys) && not (has_labels xs && has_labels ys))
flags [] [] = refl
flags [] (y ∷ ys) = refl
flags (x ∷ xs) [] = refl
flags (x ∷ xs) (y ∷ ys) = ground arith

-- The two orders on what the plugin keeps of two versions.
older_parsed-compare :
    (a b : Version)
    → older_parsed (seen_by_plugin a) (seen_by_plugin b) ≡ (
        is_before (compare_parsed a b)
        && not (same_release a b && has_labels a.prerelease && has_labels b.prerelease))
unfolding older_parsed compare_parsed
older_parsed-compare a b = ground (arith, flags a.prerelease b.prerelease)

abbrev has_dash : Text → Bool
has_dash s = contains s b'-'

has_dash-append : (s t : Text) → has_dash (s ++ t) ≡ (has_dash s || has_dash t)
has_dash-append [] t = refl
has_dash-append (c ∷ s) t = ground (arith, has_dash-append s t)

space_is_no_dash : (c : ℕ) → is_space c ≡ true → (b'-' == c) ≡ false
space_is_no_dash c h = ground arith

digit_is_no_dash : (c : ℕ) → is_digit c ≡ true → (b'-' == c) ≡ false
digit_is_no_dash c h = ground arith

has_dash-cons : (c : ℕ) (s : Text) → (b'-' == c) ≡ false → has_dash (c ∷ s) ≡ has_dash s
has_dash-cons c s h = rw h refl

-- White space is no dash, so trimming takes none away.
has_dash-trim_start : (s : Text) → has_dash (trim_start s) ≡ has_dash s
unfolding trim_start
has_dash-trim_start [] = refl
has_dash-trim_start (c ∷ s) = elim (Bool-cases (is_space c)) [
  | inl e ↦ rw e (has_dash-trim_start s ∙ sym (has_dash-cons c s (space_is_no_dash c e)))
  | inr e ↦ rw e refl
]

has_dash-keep_unless_blank :
    (c : ℕ) (s : Text) → has_dash (keep_unless_blank c s) ≡ has_dash (c ∷ s)
has_dash-keep_unless_blank c [] = elim (Bool-cases (is_space c)) [
  | inl e ↦ rw e (sym (has_dash-cons c [] (space_is_no_dash c e)))
  | inr e ↦ rw e refl
]
has_dash-keep_unless_blank c (d ∷ s) = refl

has_dash-trim_end : (s : Text) → has_dash (trim_end s) ≡ has_dash s
unfolding trim_end
has_dash-trim_end [] = refl
has_dash-trim_end (c ∷ s) =
    has_dash-keep_unless_blank c (trim_end s)
    ∙ ap (λ b. if b'-' == c then true else b) (has_dash-trim_end s)

has_dash-span_digits : (s : Text) → has_dash (span_digits s).1 ≡ has_dash s
unfolding span_digits
has_dash-span_digits [] = refl
has_dash-span_digits (c ∷ s) = elim (Bool-cases (is_digit c)) [
  | inl e ↦ rw e (has_dash-span_digits s ∙ sym (has_dash-cons c s (digit_is_no_dash c e)))
  | inr e ↦ rw e refl
]

has_dash-without_v : (s : Text) → has_dash (without_v s) ≡ has_dash s
has_dash-without_v [] = refl
has_dash-without_v (c ∷ s) = ground arith

has_dash-after_dot : (s t : Text) → after_dot s ≡ some t → has_dash t ≡ has_dash s
has_dash-after_dot [] t h = cc
has_dash-after_dot (c ∷ s) t h = elim (Bool-cases (c == b'.')) [
  | inl e ↦
      let same : s ≡ t = option_same (sym (rw e refl) ∙ h) in
      subst (λ r. has_dash r ≡ has_dash (c ∷ s)) same (sym (has_dash-cons c s (ground arith)))
  | inr e ↦ absurd (cc (h, e))
]
  where
    option_same : {a b : Text} → ◌≡◌ {A = Option Text} (some a) (some b) → a ≡ b
    option_same h = cc

has_labels-fields : (s : Text) → has_labels (fields s) ≡ true
unfolding fields
has_labels-fields [] = refl
has_labels-fields (c ∷ s) = elim (Bool-cases (c == b'.')) [
  | inl e ↦ rw e refl
  | inr e ↦ rw e (added c (fields s))
]
  where
    added : (c : ℕ) (fs : List Text) → has_labels (add_unit c fs) ≡ true
    added c [] = refl
    added c (f ∷ fs) = refl

has_labels-labels : (s : Text) (ls : List Text) → labels s ≡ some ls → has_labels ls ≡ has_dash s
unfolding fields
has_labels-labels [] ls h = subst (λ r. has_labels r ≡ false) (labels_same h) refl
  where
    labels_same : {a b : List Text} → ◌≡◌ {A = Option (List Text)} (some a) (some b) → a ≡ b
    labels_same h = cc
has_labels-labels (c ∷ s) ls h =
    elim (Bool-cases (c == b'-' && not (is_empty s) && every_of is_label s)) [
      | inl e ↦
          let same : fields s ≡ ls = labels_same (sym (rw e refl) ∙ h) in
          let dash : (b'-' == c) ≡ true = ground arith in
          subst (λ r. has_labels r ≡ has_dash (c ∷ s)) same
            (has_labels-fields s ∙ sym (rw dash refl))
      | inr e ↦ absurd (cc (h, e))
    ]
  where
    labels_same : {a b : List Text} → ◌≡◌ {A = Option (List Text)} (some a) (some b) → a ≡ b
    labels_same h = cc

and_then-some {ℓ κ} :
    {A : Type ℓ} {B : Type κ} (o : Option A) (f : A → Option B) {b : B}
    → and_then o f ≡ some b
    → (a : A) × (o ≡ some a) × (f a ≡ some b)
and_then-some none f h = cc
and_then-some (some a) f h = (a, refl, h)

-- The text after the digits has the dashes that were there.
has_dash-digits :
    (s : Text) (p : ℕ × Text) → digits_of (span_digits s) ≡ some p → has_dash p.1 ≡ has_dash s
has_dash-digits s p h = left (span_digits s) h ∙ has_dash-span_digits s
  where
    left : (q : Text × Text) → digits_of q ≡ some p → has_dash p.1 ≡ has_dash q.1
    left ([], rest) h = cc
    left (d ∷ ds, rest) h = ap (λ r. has_dash r) (second h)
      where
        second : {x y : ℕ × Text} → ◌≡◌ {A = Option (ℕ × Text)} (some x) (some y) → y.1 ≡ x.1
        second h = ground arith

-- A version that can be read has labels just where its text has a dash.
has_labels-parse_version :
    (s : Text) (v : Version) → parse_version trim s ≡ some v → has_labels v.prerelease ≡ has_dash s
unfolding parse_version
has_labels-parse_version s v h =
    let (a, ea, ha) = and_then-some _ _ h in
    let (t, et, ht) = and_then-some _ _ ha in
    let (b, eb, hb) = and_then-some _ _ ht in
    let (u, eu, hu) = and_then-some _ _ hb in
    let (c, ec, hc) = and_then-some _ _ hu in
    let (pre, ep, hp) = and_then-some _ _ hc in
    let kept : pre ≡ v.prerelease = ground arith in
    ap has_labels (sym kept)
    ∙ has_labels-labels c.1 pre ep
    ∙ has_dash-digits u c ec
    ∙ has_dash-after_dot b.1 u eu
    ∙ has_dash-digits t b eb
    ∙ has_dash-after_dot a.1 t et
    ∙ has_dash-digits (without_v (trim s)) a ea
    ∙ has_dash-without_v (trim s)
    ∙ has_dash-trim_end (trim_start s)
    ∙ has_dash-trim_start s

-- What the plugin reads of a version is what it would keep of the server's reading.
parse_server_version-seen :
    (s : Text) (v : Version)
    → parse_version trim s ≡ some v
    → parse_server_version trim s ≡ some (seen_by_plugin v)
unfolding parse_server_version
parse_server_version-seen s v h =
    rw h (ap (λ flag. with_flag flag (some v)) (sym (has_labels-parse_version s v h)))

-- Of two texts that the server can read as versions, the plugin takes the left one for older exactly
-- where the server's comparison says so, unless both are prereleases of the same release: these the
-- plugin takes for equally old.
pub older_than-compare_versions :
    (left right : Text) {a b : Version}
    → parse_version trim left ≡ some a
    → parse_version trim right ≡ some b
    → (s : Sign) × (compare_versions trim left right ≡ some s)
      × (older_than trim left right ≡ (
          is_before s
          && not (same_release a b && has_labels a.prerelease && has_labels b.prerelease)))
unfolding compare_versions older_than
older_than-compare_versions left right {a} {b} l r = (
  compare_parsed a b,
  rw (l, r) refl,
  rw (parse_server_version-seen left a l, parse_server_version-seen right b r)
      (older_parsed-compare a b),
)
