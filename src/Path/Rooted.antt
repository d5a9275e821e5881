-- ===== src/Path/Rooted.antt =====
-- A cleaned rooted path is "/" and segments that name entries: none is empty, ".", or "..".
use agentreg.Base.{
  ◌==◌, true, false, List, [], ◌∷◌, ◌++◌, Text, ◌≡◌, refl, sym, ap, ◌∙◌, subst, Bool-cases, inl,
  inr, All,
}
use agentreg.Path.{
  slash, dot, dot_dot, split, join_segments, is_abs, pop_segment, clean_step, walk, reverse_onto,
  clean_segments, render, clean,
}
use agentreg.Path.Segments.{IsSegment, split-IsSegment, split-join_segments, split-append_slash}

pub record IsName (s : Text) : Type 0 where
  pub segment : IsSegment s
  pub not_empty : (s == []) ≡ false
  pub not_dot : (s == dot) ≡ false
  pub not_dot_dot : (s == dot_dot) ≡ false

pop_segment-IsName : (stack : List Text) → All IsName stack → All IsName (pop_segment true stack)
unfolding pop_segment
pop_segment-IsName [] h = tt
pop_segment-IsName (s ∷ stack) h = rw h.0.not_dot_dot h.1

clean_step-IsName :
    (stack : List Text) (seg : Text)
    → IsSegment seg
    → All IsName stack
    → All IsName (clean_step true stack seg)
unfolding clean_step
clean_step-IsName stack seg g h = elim (Bool-cases (seg == [])) [
  | inl e ↦ rw e h
  | inr e ↦ rw e (elim (Bool-cases (seg == dot)) [
    | inl f ↦ rw f h
    | inr f ↦ rw f (elim (Bool-cases (seg == dot_dot)) [
      | inl d ↦ rw d (pop_segment-IsName stack h)
      | inr d ↦ rw d (record { segment = g; not_empty = e; not_dot = f; not_dot_dot = d }, h)
    ])
  ])
]

walk-IsName :
    (stack segs : List Text)
    → All IsSegment segs
    → All IsName stack
    → All IsName (walk true stack segs)
unfolding walk
walk-IsName stack [] g h = h
walk-IsName stack (seg ∷ segs) g h =
    walk-IsName (clean_step true stack seg) segs g.1 (clean_step-IsName stack seg g.0 h)

reverse_onto-IsName :
    (stack acc : List Text)
    → All IsName stack
    → All IsName acc
    → All IsName (reverse_onto stack acc)
unfolding reverse_onto
reverse_onto-IsName [] acc h k = k
reverse_onto-IsName (s ∷ stack) acc h k = reverse_onto-IsName stack (s ∷ acc) h.1 (h.0, k)

pub clean_segments-IsName : (p : Text) → is_abs p ≡ true → All IsName (clean_segments p)
unfolding clean_segments
clean_segments-IsName p h = rw h (
    reverse_onto-IsName (walk true [] (split p)) []
      (walk-IsName [] (split p) (split-IsSegment p) tt) tt)

IsName-segments : (ss : List Text) → All IsName ss → All IsSegment ss
IsName-segments [] h = tt
IsName-segments (s ∷ ss) h = (h.0.segment, IsName-segments ss h.1)

-- Not "..".
abbrev pub IsDown : Text → Type 0
IsDown s = (s == dot_dot) ≡ false

IsName-IsDown : (ss : List Text) → All IsName ss → All IsDown ss
IsName-IsDown [] h = tt
IsName-IsDown (s ∷ ss) h = (h.0.not_dot_dot, IsName-IsDown ss h.1)

split_names : (ss : List Text) → All IsName ss → All IsDown (split (join_segments ss))
unfolding split join_segments ◌==◌
split_names [] h = (refl, tt)
split_names (s ∷ ss) h =
    subst (All IsDown) (sym (split-join_segments s ss (IsName-segments (s ∷ ss) h)))
      (IsName-IsDown (s ∷ ss) h)

pub split-clean : (p : Text) → is_abs p ≡ true → All IsDown (split (clean p))
unfolding clean render split ◌==◌
split-clean p h =
    subst (λ b. All IsDown (split (render b (clean_segments p)))) (sym h)
      (refl, split_names (clean_segments p) (clean_segments-IsName p h))

All-drop : (ss ts : List Text) → All IsDown (ss ++ ts) → All IsDown ts
All-drop [] ts h = h
All-drop (s ∷ ss) ts h = All-drop ss ts h.1

-- No segment below a directory of a cleaned rooted path is "..".
pub below-clean :
    (p base rest : Text)
    → is_abs p ≡ true
    → clean p ≡ base ++ slash ∷ rest
    → All IsDown (split rest)
below-clean p base rest h e =
    All-drop (split base) (split rest)
      (subst (All IsDown) (ap split e ∙ split-append_slash base rest) (split-clean p h))
