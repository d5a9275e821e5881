-- ===== src/Cli/Refs.antt =====
-- Lemmas on parseRef (cmd/krate/client.go).
use agentreg.Base.{
  ℕ, Text, ◌==◌, eqb, false, none, some, [], ◌∷◌, ◌++◌, ok, any, ◌≡◌, refl, sym, subst, ap, ◌∙◌,
  arith, eqb_iff, ◌≢◌, Option-cases, inl, inr, ◌⊎◌,
}
use mathlib.Core.List.{append_assoc, append-nil}
use agentreg.Cli.{Ref, cut, at_sign, name_version, ref_parts, ref_cut, parse_ref, ref_key}

-- The byte does not occur.
abbrev pub IsFree : ℕ → Text → Type 0
IsFree c s = any (λ d. eqb d c) s ≡ false

cut-append : (c : ℕ) (s t : Text) → IsFree c s → cut c (s ++ c ∷ t) ≡ some (s, t)
unfolding cut
cut-append c [] t h = ground (arith, eqb_iff c c)
cut-append c (d ∷ s) t h = ground (arith, cut-append c s t)

cut-none : (c : ℕ) (s : Text) → IsFree c s → cut c s ≡ none
unfolding cut
cut-none c [] h = refl
cut-none c (d ∷ s) h = ground (arith, cut-none c s)

cut_sound : (c : ℕ) (s a b : Text) → cut c s ≡ some (a, b) → (s ≡ a ++ c ∷ b) × IsFree c a
unfolding cut
cut_sound c [] a b h = cc
cut_sound c (d ∷ s) a b h = elim (Option-cases (cut c s)) [
  | inl e ↦ ground (arith, eqb_iff d c)
  | inr (p, e) ↦ ground (arith, eqb_iff d c, cut_sound c s p.0 p.1 e)
]

parse_ref-ref_cut : (ref : Text) → parse_ref (at_sign ∷ ref) ≡ ref_cut ref (cut b'/' ref)
unfolding parse_ref
parse_ref-ref_cut ref = refl

pub ==_empty : (s : Text) → s ≢ [] → (s == []) ≡ false
unfolding ◌==◌
==_empty [] h = absurd (h refl)
==_empty (c ∷ s) h = refl

-- What is printed after the name: "@" and the version, or nothing.
abbrev pub version_suffix : Text → Text
version_suffix [] = []
version_suffix (c ∷ version) = at_sign ∷ c ∷ version

name_version-suffix :
    (name version : Text)
    → IsFree at_sign name
    → name_version (name ++ version_suffix version) (cut at_sign (name ++ version_suffix version))
      ≡ (name, version)
name_version-suffix name [] h = rw (append-nil, cut-none at_sign name h) refl
name_version-suffix name (c ∷ version) h = rw (cut-append at_sign name (c ∷ version) h)

-- A reference whose scope is not empty and has no "/", and whose name is not empty and has no "@",
-- prints and parses back, with a version and without one.
pub parse_ref-ref_key :
    (r : Ref)
    → r.scope ≢ []
    → IsFree b'/' r.scope
    → r.name ≢ []
    → IsFree at_sign r.name
    → parse_ref (ref_key r.scope r.name ++ version_suffix r.version) ≡ ok r
unfolding ref_key
parse_ref-ref_key r s f n g =
    let rest = r.name ++ version_suffix r.version in
    let assoc : ref_key r.scope r.name ++ version_suffix r.version
        ≡ at_sign ∷ r.scope ++ b'/' ∷ rest =
      ap (λ x. at_sign ∷ x) (append_assoc r.scope (b'/' ∷ r.name) (version_suffix r.version)) in
    ap parse_ref assoc
    ∙ parse_ref-ref_cut (r.scope ++ b'/' ∷ rest)
    ∙ ap (ref_cut _) (cut-append b'/' r.scope rest f)
    ∙ ap (ref_parts _ r.scope) (name_version-suffix r.name r.version g)
    ∙ rw (==_empty r.scope s, ==_empty r.name n) refl

-- `t` spells `r`: "@", the scope, "/" and the name, then "@" and the version, or nothing, or an "@"
-- alone; the parts are well formed.
pub record Spells (t : Text) (r : Ref) : Type 0 where
  pub text :
      (t ≡ ref_key r.scope r.name ++ version_suffix r.version)
      ⊎ (t ≡ ref_key r.scope r.name ++ at_sign ∷ r.version)
  pub scope_ne_nil : r.scope ≢ []
  pub scope_free : IsFree b'/' r.scope
  pub name_ne_nil : r.name ≢ []
  pub name_free : IsFree at_sign r.name

ref_parts_sound :
    (ref scope name version : Text) (r : Ref)
    → ref_parts ref scope (name, version) ≡ ok r
    → (r ≡ record { scope = scope; name = name; version = version }) × (scope ≢ []) × (name ≢ [])
unfolding ◌==◌
ref_parts_sound ref [] name version r h = cc
ref_parts_sound ref (c ∷ scope) [] version r h = cc
ref_parts_sound ref (c ∷ scope) (d ∷ name) version r h = (cc, λ e. cc, λ e. cc)

cut-IsFree : (c : ℕ) (s : Text) → cut c s ≡ none → IsFree c s
unfolding cut
cut-IsFree c [] h = refl
cut-IsFree c (d ∷ s) h = elim (Option-cases (cut c s)) [
  | inl e ↦ ground (arith, cut-IsFree c s e)
  | inr (p, e) ↦ ground (arith, e)
]

name_version_sound :
    (rest : Text)
    → let (name, version) = name_version rest (cut at_sign rest) in
      ((rest ≡ name ++ version_suffix version) ⊎ (rest ≡ name ++ at_sign ∷ version))
      × IsFree at_sign name
name_version_sound rest = elim (Option-cases (cut at_sign rest)) [
  | inl e ↦ rw e (inl (rw append-nil refl), cut-IsFree at_sign rest e)
  | inr (p, e) ↦ rw e (let (k, f) = cut_sound at_sign rest p.0 p.1 e in (inr k, f))
]

key_append :
    (ref scope name rest t : Text)
    → ref ≡ scope ++ b'/' ∷ rest
    → rest ≡ name ++ t
    → at_sign ∷ ref ≡ ref_key scope name ++ t
unfolding ref_key
key_append ref scope name rest t h k =
    ap (λ x. at_sign ∷ x)
      (h ∙ ap (λ x. scope ++ b'/' ∷ x) k ∙ sym (append_assoc scope (b'/' ∷ name) t))

ref_parts-Spells :
    (ref scope rest name version : Text) (r : Ref)
    → ref ≡ scope ++ b'/' ∷ rest
    → IsFree b'/' scope
    → (rest ≡ name ++ version_suffix version) ⊎ (rest ≡ name ++ at_sign ∷ version)
    → IsFree at_sign name
    → ref_parts ref scope (name, version) ≡ ok r
    → Spells (at_sign ∷ ref) r
ref_parts-Spells ref scope rest name version r e f k g h =
    let (er, s, n) = ref_parts_sound ref scope name version r h in
    let spelled : Spells (at_sign ∷ ref)
        (record { scope = scope; name = name; version = version }) =
      record {
        text = elim k [
          | inl x ↦ inl (key_append ref scope name rest _ e x)
          | inr x ↦ inr (key_append ref scope name rest _ e x)
        ];
        scope_ne_nil = s;
        scope_free = f;
        name_ne_nil = n;
        name_free = g;
      } in
    subst (Spells (at_sign ∷ ref)) (sym er) spelled

ref_cut_sound :
    (ref : Text) (r : Ref) → ref_cut ref (cut b'/' ref) ≡ ok r → Spells (at_sign ∷ ref) r
ref_cut_sound ref r h = elim (Option-cases (cut b'/' ref)) [
  | inl e ↦ absurd (ground (arith, e))
  | inr ((scope, rest), e) ↦
      let (k, f) = cut_sound b'/' ref scope rest e in
      let (p, g) = name_version_sound rest in
      ref_parts-Spells ref scope rest _ _ r k f p g (ap (ref_cut ref) (sym e) ∙ h)
]

parse_ref-ok :
    (t : Text) (r : Ref)
    → parse_ref t ≡ ok r
    → (ref : Text) × (t ≡ at_sign ∷ ref) × (ref_cut ref (cut b'/' ref) ≡ ok r)
unfolding parse_ref
parse_ref-ok [] r h = cc
parse_ref-ok (c ∷ ref) r h = (ref, ground (arith, eqb_iff c at_sign), ground arith)

-- A text parses to `r` only if it spells `r`.
pub parse_ref-Spells : (t : Text) (r : Ref) → parse_ref t ≡ ok r → Spells t r
parse_ref-Spells t r h =
    let (ref, e, k) = parse_ref-ok t r h in subst (λ x. Spells x r) (sym e) (ref_cut_sound ref r k)
