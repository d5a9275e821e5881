-- ===== src/Base/Texts.antt =====
-- Go strings as the lists of their bytes, with the functions of package strings that the code calls.
use Prim.Native.Nat.{ℕ, ◌+◌}
use Prim.Native.Char.{code}
use Prim.Native.String.{String}
use mathlib.Core.Path.{◌≡◌, refl}
use mathlib.Core.Logic.{◌↔◌}
use mathlib.Core.Bool.{Bool, true, false, ◌&&◌, ◌||◌}
use mathlib.Core.List.{List, [], ◌∷◌, ◌++◌, map}
use native.Mathlib.Omega.{arith}
use agentreg.Base.Tests.{eqb, leb, ltb, if◌then◌else◌}

abbrev pub Text : Type 0
Text = List ℕ

-- The bytes of an ASCII literal.
abbrev pub bytes : String → Text
bytes String.[] = []
bytes (String.◌∷◌ c s) = code c ∷ bytes s

infix 50 ◌==◌
unfoldable pub ◌==◌ : Text → Text → Bool
[] == [] = true
[] == (d ∷ t) = false
(c ∷ s) == [] = false
(c ∷ s) == (d ∷ t) = eqb c d && s == t

pub ==_refl : (s : Text) → (s == s) ≡ true
unfolding ◌==◌
==_refl [] = refl
==_refl (c ∷ s) = ground (arith, ==_refl s)

pub ==_sound : (s t : Text) → (s == t) ≡ true → s ≡ t
unfolding ◌==◌
==_sound [] [] h = refl
==_sound [] (d ∷ t) h = cc
==_sound (c ∷ s) [] h = cc
==_sound (c ∷ s) (d ∷ t) h = ground (arith, ==_sound s t)

pub text_iff : (s t : Text) → ((s == t) ≡ true) ↔ (s ≡ t)
text_iff s t = (==_sound s t, λ e. subst_eq e)
  where
    subst_eq : s ≡ t → (s == t) ≡ true
    subst_eq e = rw e (==_refl t)

-- strings.HasPrefix
unfoldable pub has_prefix : Text → Text → Bool
has_prefix s [] = true
has_prefix [] (d ∷ t) = false
has_prefix (c ∷ s) (d ∷ t) = eqb c d && has_prefix s t

-- strings.Contains
unfoldable pub contains : Text → Text → Bool
unfolding has_prefix
contains [] t = has_prefix [] t
contains (c ∷ s) t = has_prefix (c ∷ s) t || contains s t

-- strings.ToLower, on ASCII
unfoldable pub to_lower : Text → Text
to_lower = map λ c. if leb b'A' c && leb c b'Z' then c + 32 else c

pub has_prefix_sound : (s t : Text) → has_prefix s t ≡ true → (r : Text) × (s ≡ t ++ r)
unfolding has_prefix
has_prefix_sound s [] h = (s, refl)
has_prefix_sound [] (d ∷ t) h = cc
has_prefix_sound (c ∷ s) (d ∷ t) h =
    let (r, k) = has_prefix_sound s t (ground arith) in (r, ground (arith, k))

-- strings.HasSuffix
unfoldable pub has_suffix : Text → Text → Bool
unfolding ◌==◌
has_suffix [] t = [] == t
has_suffix (c ∷ s) t = (c ∷ s) == t || has_suffix s t

-- The order of Go strings.
unfoldable pub text_leb : Text → Text → Bool
text_leb [] t = true
text_leb (c ∷ s) [] = false
text_leb (c ∷ s) (d ∷ t) = ltb c d || (eqb c d && text_leb s t)
