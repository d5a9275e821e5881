-- ===== src/Path/Segments.antt =====
-- strings.Split and strings.Join at "/" undo each other on segments without a "/".
use agentreg.Base.{
  ℕ, eqb, false, List, [], ◌∷◌, ◌++◌, Text, ◌≡◌, refl, ap, ◌∙◌, Bool-cases, inl, inr, All, eqb_iff,
}
use agentreg.Path.{slash, cons_segment, split, join_segments}

-- Not empty.
abbrev IsSome : List Text → Type 0
IsSome ss = (x : Text) × (xs : List Text) × (ss ≡ x ∷ xs)

-- No byte is a "/".
unfoldable pub IsSegment : Text → Type 0
IsSegment [] = Unit
IsSegment (c ∷ s) = (eqb c slash ≡ false) × IsSegment s

cons_segment-IsSome : (c : ℕ) (ss : List Text) → IsSome (cons_segment c ss)
unfolding cons_segment
cons_segment-IsSome c [] = (_, _, refl)
cons_segment-IsSome c (s ∷ ss) = (_, _, refl)

split-IsSome : (s : Text) → IsSome (split s)
unfolding split
split-IsSome [] = (_, _, refl)
split-IsSome (c ∷ s) = elim (Bool-cases (eqb c slash)) [
  | inl e ↦ rw e ([], split s, refl)
  | inr e ↦ rw e (cons_segment-IsSome c (split s))
]

cons_segment-append :
    (c : ℕ) (ss ts : List Text) → IsSome ss → cons_segment c (ss ++ ts) ≡ cons_segment c ss ++ ts
unfolding cons_segment
cons_segment-append c [] ts (x, xs, e) = cc
cons_segment-append c (s ∷ ss) ts h = refl

pub split-append_slash : (s t : Text) → split (s ++ slash ∷ t) ≡ split s ++ split t
unfolding split cons_segment
split-append_slash [] t = refl
split-append_slash (c ∷ s) t = elim (Bool-cases (eqb c slash)) [
  | inl e ↦ rw e (ap (λ r. [] ∷ r) (split-append_slash s t))
  | inr e ↦ rw e (
      ap (cons_segment c) (split-append_slash s t)
      ∙ cons_segment-append c (split s) (split t) (split-IsSome s))
]

pub split-segment : (s : Text) → IsSegment s → split s ≡ s ∷ []
unfolding split cons_segment IsSegment
split-segment [] h = refl
split-segment (c ∷ s) (h, k) = rw (h, split-segment s k)

pub split-join_segments :
    (s : Text) (ss : List Text) → All IsSegment (s ∷ ss) → split (join_segments (s ∷ ss)) ≡ s ∷ ss
unfolding join_segments
split-join_segments s [] h = split-segment s h.0
split-join_segments s (t ∷ ss) h =
    split-append_slash s (join_segments (t ∷ ss))
    ∙ ap (λ r. r ++ split (join_segments (t ∷ ss))) (split-segment s h.0)
    ∙ ap (λ r. s ∷ r) (split-join_segments t ss h.1)

cons_segment-IsSegment :
    (c : ℕ) (ss : List Text)
    → eqb c slash ≡ false
    → All IsSegment ss
    → All IsSegment (cons_segment c ss)
unfolding cons_segment IsSegment
cons_segment-IsSegment c [] h k = ((h, tt), tt)
cons_segment-IsSegment c (s ∷ ss) h (k, l) = ((h, k), l)

pub split-IsSegment : (s : Text) → All IsSegment (split s)
unfolding split IsSegment
split-IsSegment [] = (tt, tt)
split-IsSegment (c ∷ s) = elim (Bool-cases (eqb c slash)) [
  | inl e ↦ rw e (tt, split-IsSegment s)
  | inr e ↦ rw e (cons_segment-IsSegment c (split s) e (split-IsSegment s))
]

join-cons_segment :
    (c : ℕ) (ss : List Text) → IsSome ss → join_segments (cons_segment c ss) ≡ c ∷ join_segments ss
unfolding join_segments cons_segment
join-cons_segment c [] (x, xs, e) = cc
join-cons_segment c (s ∷ []) h = refl
join-cons_segment c (s ∷ t ∷ ss) h = refl

join-empty_segment :
    (ss : List Text) → IsSome ss → join_segments ([] ∷ ss) ≡ slash ∷ join_segments ss
unfolding join_segments
join-empty_segment [] (x, xs, e) = cc
join-empty_segment (s ∷ ss) h = refl

pub join_segments-split : (s : Text) → join_segments (split s) ≡ s
unfolding split join_segments
join_segments-split [] = refl
join_segments-split (c ∷ s) = elim (Bool-cases (eqb c slash)) [
  | inl e ↦ rw e (
      join-empty_segment (split s) (split-IsSome s)
      ∙ cc (join_segments-split s, (eqb_iff c slash).0 e))
  | inr e ↦
      rw e
        (join-cons_segment c (split s) (split-IsSome s) ∙ ap (λ r. c ∷ r) (join_segments-split s))
]
