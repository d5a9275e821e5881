-- ===== src/Pack/Inside.antt =====
-- An entry's target is below the directory it is joined to.
use mathlib.Core.List.{append_assoc}
use agentreg.Base.{
  Text, ◌==◌, true, ◌⊎◌, inl, inr, [], ◌∷◌, ◌++◌, ok, has_prefix_sound, ◌≡◌, ◌∙◌, subst, arith,
  Bool-cases, All, ==_sound,
}
use agentreg.Path.{slash, clean, join, is_abs, split, render, non_empty, join_segments}
use agentreg.Path.Rooted.{IsDown, below-clean}
use agentreg.Pack.{is_inside, safe_join}

-- The directory itself, or a path below it none of whose segments goes up.
abbrev pub IsBelow : Text → Text → Type 0
IsBelow base target =
    (target ≡ base) ⊎ ((rest : Text) × (target ≡ base ++ slash ∷ rest) × All IsDown (split rest))

pub is_inside-IsBelow :
    (base p : Text) → is_abs p ≡ true → is_inside (clean p) base ≡ true → IsBelow base (clean p)
unfolding is_inside
is_inside-IsBelow base p a h = elim (Bool-cases (clean p == base)) [
  | inl e ↦ inl (==_sound (clean p) base e)
  | inr e ↦
      let (rest, k) = has_prefix_sound (clean p) (base ++ slash ∷ []) (ground arith) in
      let e' = k ∙ append_assoc base (slash ∷ []) rest in
      inr (rest, e', below-clean p base rest a e')
]

is_abs-append : (s t : Text) → is_abs s ≡ true → is_abs (s ++ t) ≡ true
unfolding is_abs
is_abs-append [] t h = cc
is_abs-append (c ∷ s) t h = h

is_abs-clean : (p : Text) → is_abs p ≡ true → is_abs (clean p) ≡ true
unfolding is_abs clean render
is_abs-clean p h = rw h

is_abs-join : (base name : Text) → is_abs base ≡ true → is_abs (join (base ∷ name ∷ [])) ≡ true
unfolding join non_empty join_segments
is_abs-join [] name h = ground arith
is_abs-join (c ∷ s) [] h = is_abs-clean (c ∷ s) h
is_abs-join (c ∷ s) (d ∷ t) h =
    is_abs-clean ((c ∷ s) ++ slash ∷ d ∷ t) (is_abs-append (c ∷ s) (slash ∷ d ∷ t) h)

pub safe_join-IsBelow :
    (base name target : Text)
    → is_abs base ≡ true
    → safe_join base name ≡ ok target
    → IsBelow (clean base) target
unfolding safe_join
safe_join-IsBelow base name target a h =
    let cleaned = clean (join (base ∷ name ∷ [])) in
    let passed : (is_inside cleaned (clean base) ≡ true) × (cleaned ≡ target) = ground arith in
    subst (IsBelow (clean base)) passed.1
      (is_inside-IsBelow (clean base) (join (base ∷ name ∷ [])) (is_abs-join base name a) passed.0)
