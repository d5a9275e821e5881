-- ===== src/Path.antt =====
-- Packages path and path/filepath on Unix, and strings.Split and strings.Join at one byte: a path is
-- cleaned by walking over its segments with a stack.
pub mod Segments
pub mod Rooted
use agentreg.Base.{
  ℕ, Text, bytes, ◌==◌, eqb, Bool, true, false, not, ◌&&◌, List, [], ◌∷◌, ◌++◌, map, if◌then◌else◌,
}

abbrev pub slash : ℕ
slash = b'/'

-- Puts a byte in front of the first segment.
unfoldable pub cons_segment : ℕ → List Text → List Text
cons_segment c [] = (c ∷ []) ∷ []
cons_segment c (s ∷ ss) = (c ∷ s) ∷ ss

-- strings.Split(s, "/")
unfoldable pub split : Text → List Text
unfolding cons_segment
split [] = [] ∷ []
split (c ∷ s) = let rest = split s in if eqb c slash then [] ∷ rest else cons_segment c rest

-- strings.Join(segs, "/")
unfoldable pub join_segments : List Text → Text
join_segments [] = []
join_segments (s ∷ []) = s
join_segments (s ∷ t ∷ ss) = s ++ slash ∷ join_segments (t ∷ ss)

abbrev pub dot : Text
dot = bytes "."

abbrev pub dot_dot : Text
dot_dot = bytes ".."

-- `filepath.IsAbs`
unfoldable pub is_abs : Text → Bool
is_abs [] = false
is_abs (c ∷ s) = eqb c slash

-- A `..` on the stack of segments, the last segment first: it takes a name off; at the root it is
-- dropped; elsewhere it stays.
unfoldable pub pop_segment : Bool → List Text → List Text
pop_segment true [] = []
pop_segment false [] = dot_dot ∷ []
pop_segment rooted (s ∷ stack) = if s == dot_dot then dot_dot ∷ s ∷ stack else stack

unfoldable pub clean_step : Bool → List Text → Text → List Text
unfolding pop_segment
clean_step rooted stack seg =
    if seg == []
    then stack
    else if seg == dot
    then stack
    else if seg == dot_dot
    then pop_segment rooted stack
    else seg ∷ stack

-- The segments of the cleaned path, last first.
unfoldable pub walk : Bool → List Text → List Text → List Text
unfolding clean_step
walk rooted stack [] = stack
walk rooted stack (seg ∷ segs) = walk rooted (clean_step rooted stack seg) segs

unfoldable pub reverse_onto : List Text → List Text → List Text
reverse_onto [] acc = acc
reverse_onto (s ∷ stack) acc = reverse_onto stack (s ∷ acc)

unfoldable pub clean_segments : Text → List Text
unfolding walk split is_abs reverse_onto
clean_segments p = reverse_onto (walk (is_abs p) [] (split p)) []

unfoldable pub render : Bool → List Text → Text
unfolding join_segments
render true segs = slash ∷ join_segments segs
render false [] = dot
render false (s ∷ segs) = join_segments (s ∷ segs)

-- path.Clean and filepath.Clean
unfoldable pub clean : Text → Text
unfolding render clean_segments is_abs
clean p = render (is_abs p) (clean_segments p)

-- The elements that are not empty, as filepath.Join takes them.
unfoldable pub non_empty : List Text → List Text
non_empty [] = []
non_empty ([] ∷ es) = non_empty es
non_empty ((c ∷ e) ∷ es) = (c ∷ e) ∷ non_empty es

abbrev clean_joined : List Text → Text
clean_joined [] = []
clean_joined (e ∷ es) = clean (join_segments (e ∷ es))

-- filepath.Join
unfoldable pub join : List Text → Text
unfolding non_empty clean
join es = clean_joined (non_empty es)

-- Up to the last "/", which stays.
unfoldable pub to_last_slash : Text → Text
to_last_slash [] = []
to_last_slash (c ∷ s) =
    let rest = to_last_slash s in
    if not (rest == []) then c ∷ rest else if eqb c slash then c ∷ [] else []

-- filepath.Dir
unfoldable pub dir : Text → Text
unfolding clean to_last_slash
dir p = clean (to_last_slash p)
