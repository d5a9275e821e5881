-- ===== src/Crawler/Urls.antt =====
-- Lemmas on the parsing of repository URLs (internal/crawler/github.go).
use mathlib.Core.List.{append-nil}
use agentreg.Base.{
  ℕ, Text, bytes, ◌==◌, Bool, true, false, Option, some, List, [], ◌∷◌, ◌++◌, ok, All, has_suffix,
  ◌≡◌, ◌≢◌, refl, sym, ap, ◌∙◌, arith, text_iff, ==_refl, length, length-append,
}
use agentreg.Path.{slash, split, join_segments}
use agentreg.Path.Segments.{IsSegment, join_segments-split, split-segment, split-append_slash}
use agentreg.Crawler.{
  trim_left, trim_right, trim_slashes, trim_suffix, RepoUrl, tree_parts, repo_parts, located,
  parse_repo_url,
}

trim_suffix-append : (s suffix : Text) → suffix ≢ [] → trim_suffix (s ++ suffix) suffix ≡ s
unfolding trim_suffix
trim_suffix-append [] [] h = absurd (h refl)
trim_suffix-append [] (c ∷ t) h = rw (==_refl (c ∷ t)) refl
trim_suffix-append (c ∷ s) t h =
    ground (arith, text_iff (c ∷ s ++ t) t, longer, trim_suffix-append s t h)
  where
    longer : (c ∷ s ++ t) ≢ t
    longer e = omega (arith, length-append s t, ap length e)

trim_suffix_none : (s suffix : Text) → has_suffix s suffix ≡ false → trim_suffix s suffix ≡ s
unfolding trim_suffix has_suffix
trim_suffix_none [] t h = refl
trim_suffix_none (c ∷ s) t h = ground (arith, trim_suffix_none s t)

trim_left-segment : (c : ℕ) (s t : Text) → IsSegment (c ∷ s) → trim_left (c ∷ s ++ t) ≡ c ∷ s ++ t
unfolding trim_left IsSegment
trim_left-segment c s t h = rw h.0 refl

trim_right-append : (s t : Text) → t ≢ [] → trim_right t ≡ t → trim_right (s ++ t) ≡ s ++ t
unfolding trim_right
trim_right-append [] t n h = h
trim_right-append (c ∷ s) t n h =
    ground (arith, trim_right-append s t n h, text_iff (s ++ t) [], append_ne_nil s t n)
  where
    append_ne_nil : (s t : Text) → t ≢ [] → (s ++ t) ≢ []
    append_ne_nil [] t n = n
    append_ne_nil (c ∷ s) t n = λ e. cc

trim_right-segment : (s : Text) → IsSegment s → trim_right s ≡ s
unfolding trim_right IsSegment
trim_right-segment [] h = refl
trim_right-segment (c ∷ s) h = ground (arith, trim_right-segment s h.1)

trim_right_none : (s : Text) → has_suffix s (slash ∷ []) ≡ false → trim_right s ≡ s
unfolding trim_right has_suffix ◌==◌
trim_right_none [] h = refl
trim_right_none (c ∷ []) h = ground arith
trim_right_none (c ∷ d ∷ s) h = ground (arith, trim_right_none (d ∷ s))

tree-IsSegment : IsSegment (bytes "tree")
unfolding IsSegment
tree-IsSegment = (refl, (refl, (refl, (refl, tt))))

-- What follows on the repository in the path.
abbrev pub tree_path : Text → Text → Text
tree_path [] subpath = []
tree_path (c ∷ ref) [] = bytes "/tree/" ++ (c ∷ ref)
tree_path (c ∷ ref) (d ∷ subpath) = bytes "/tree/" ++ ((c ∷ ref) ++ (slash ∷ d ∷ subpath))

-- The segments before the last, then the last, which may have slashes inside.
abbrev joined : List Text → Text → Text
joined ss t = join_segments (ss ++ t ∷ [])

joined-cons : (s : Text) (ss : List Text) (t : Text) → joined (s ∷ ss) t ≡ s ++ slash ∷ joined ss t
unfolding join_segments
joined-cons s [] t = refl
joined-cons s (r ∷ ss) t = refl

split-joined : (ss : List Text) (t : Text) → All IsSegment ss → split (joined ss t) ≡ ss ++ split t
unfolding join_segments
split-joined [] t h = refl
split-joined (s ∷ ss) t h =
    ap split (joined-cons s ss t)
    ∙ split-append_slash s (joined ss t)
    ∙ cc (split-segment s h.0, split-joined ss t h.1)

joined_ne_nil : (ss : List Text) (t : Text) → t ≢ [] → joined ss t ≢ []
unfolding join_segments
joined_ne_nil [] t n e = n e
joined_ne_nil (s ∷ ss) t n e = append_slash_ne_nil s (joined ss t) (sym (joined-cons s ss t) ∙ e)
  where
    append_slash_ne_nil : (s r : Text) → (s ++ slash ∷ r) ≢ []
    append_slash_ne_nil [] r e = cc
    append_slash_ne_nil (c ∷ s) r e = cc

trim_right-joined :
    (ss : List Text) (t : Text) → t ≢ [] → trim_right t ≡ t → trim_right (joined ss t) ≡ joined ss t
unfolding join_segments
trim_right-joined [] t n h = h
trim_right-joined (s ∷ ss) t n h =
    ap trim_right (joined-cons s ss t)
    ∙ trim_right-append s (slash ∷ joined ss t) (λ e. cc)
        (trim_right-append (slash ∷ []) (joined ss t) (joined_ne_nil ss t n)
          (trim_right-joined ss t n h))
    ∙ sym (joined-cons s ss t)

trim_slashes-joined :
    (c : ℕ) (s : Text) (ss : List Text) (t : Text)
    → IsSegment (c ∷ s)
    → t ≢ []
    → trim_right t ≡ t
    → trim_slashes (slash ∷ joined ((c ∷ s) ∷ ss) t) ≡ joined ((c ∷ s) ∷ ss) t
unfolding trim_slashes
trim_slashes-joined c s ss t g n h =
    ap trim_right (
      ap trim_left (joined-cons (c ∷ s) ss t)
      ∙ trim_left-segment c s (slash ∷ joined ss t) g
      ∙ sym (joined-cons (c ∷ s) ss t))
    ∙ trim_right-joined ((c ∷ s) ∷ ss) t n h

module _ (url_parse : Text → Option (Text × Text)) (raw : Text) where
  parse_repo_url-joined :
      (c : ℕ) (s : Text) (ss : List Text) (t : Text)
      → All IsSegment ((c ∷ s) ∷ ss)
      → t ≢ []
      → trim_right t ≡ t
      → url_parse raw ≡ some (bytes "github.com", slash ∷ joined ((c ∷ s) ∷ ss) t)
      → parse_repo_url url_parse raw ≡ repo_parts ((c ∷ s) ∷ ss ++ split t)
  unfolding parse_repo_url ◌==◌
  parse_repo_url-joined c s ss t g n h e =
      ap (located raw) e
      ∙ ap repo_parts
          (ap split (trim_slashes-joined c s ss t g.0 n h) ∙ split-joined ((c ∷ s) ∷ ss) t g)

abbrev git_suffix : Bool → Text
git_suffix true = bytes ".git"
git_suffix false = []

-- The path of a repository's page, or of a directory in it at a branch or tag; the repository's name may
-- have ".git" after it.
abbrev pub page_path : Bool → RepoUrl → Text
page_path git u =
    slash ∷ (u.owner ++ (slash ∷ ((u.repo ++ git_suffix git) ++ tree_path u.ref u.subpath)))

-- What the path can say: a subpath only with a ref.
pub record IsPage (u : RepoUrl) : Type 0 where
  pub owner_ne_nil : u.owner ≢ []
  pub owner_segment : IsSegment u.owner
  pub repo_ne_nil : u.repo ≢ []
  pub repo_segment : IsSegment u.repo
  pub not_git : has_suffix u.repo (bytes ".git") ≡ false
  pub ref_segment : IsSegment u.ref
  pub subpath_trim : has_suffix u.subpath (slash ∷ []) ≡ false
  pub subpath_ref : u.ref ≡ [] → u.subpath ≡ []

IsSegment-git : (s : Text) (git : Bool) → IsSegment s → IsSegment (s ++ git_suffix git)
unfolding IsSegment
IsSegment-git [] true h = (refl, (refl, (refl, (refl, tt))))
IsSegment-git [] false h = tt
IsSegment-git (c ∷ s) git (h, k) = (h, IsSegment-git s git k)

trim_suffix-git :
    (s : Text) (git : Bool)
    → has_suffix s (bytes ".git") ≡ false
    → trim_suffix (s ++ git_suffix git) (bytes ".git") ≡ s
trim_suffix-git s true h = trim_suffix-append s (bytes ".git") (λ e. cc)
trim_suffix-git s false h = rw append-nil (trim_suffix_none s (bytes ".git") h)

repo_parts-named :
    (c d : ℕ) (s r : Text) (git : Bool) (rest : List Text)
    → has_suffix (d ∷ r) (bytes ".git") ≡ false
    → repo_parts ((c ∷ s) ∷ ((d ∷ r) ++ git_suffix git) ∷ rest)
      ≡ ok (record {
        owner = c ∷ s;
        repo = d ∷ r;
        ref = (tree_parts rest).0;
        subpath = (tree_parts rest).1;
      })
unfolding ◌==◌
repo_parts-named c d s r git rest h =
    ap
      (λ x. ok (record {
        owner = c ∷ s;
        repo = x;
        ref = (tree_parts rest).0;
        subpath = (tree_parts rest).1;
      }))
      (trim_suffix-git (d ∷ r) git h)

append_ne_nil : (s t : Text) → s ≢ [] → (s ++ t) ≢ []
append_ne_nil [] t h e = h refl
append_ne_nil (c ∷ s) t h e = cc

read_tree :
    (c : ℕ) (ref subpath : Text)
    → tree_parts (bytes "tree" ∷ (c ∷ ref) ∷ split subpath) ≡ (c ∷ ref, subpath)
unfolding ◌==◌
read_tree c ref subpath = ap (λ x. (c ∷ ref, x)) (join_segments-split subpath)

module _ (url_parse : Text → Option (Text × Text)) (raw : Text) (git : Bool) where
  abbrev IsRead : RepoUrl → Type 0
  IsRead u =
      IsPage u
      → url_parse raw ≡ some (bytes "github.com", page_path git u)
      → parse_repo_url url_parse raw ≡ ok u

  module _ (c d : ℕ) (s r : Text) where
    abbrev page : Text → Text → RepoUrl
    page ref subpath = record { owner = c ∷ s; repo = d ∷ r; ref = ref; subpath = subpath }

    page_path-IsRead_root : IsRead (page [] [])
    unfolding join_segments
    page_path-IsRead_root p e =
        let name = (d ∷ r) ++ git_suffix git in
        let segment = IsSegment-git (d ∷ r) git p.repo_segment in
        parse_repo_url-joined url_parse raw c s [] name (p.owner_segment, tt)
          (append_ne_nil (d ∷ r) _ (λ e. cc)) (trim_right-segment name segment)
          (e
            ∙ ap (λ x. some (bytes "github.com", slash ∷ (c ∷ s) ++ (slash ∷ x))) (append-nil name))
        ∙ ap (λ x. repo_parts ((c ∷ s) ∷ x)) (split-segment name segment)
        ∙ repo_parts-named c d s r git [] p.not_git

    read_below :
        (b : ℕ) (ref t : Text) (ss : List Text)
        → All IsSegment ((c ∷ s) ∷ ((d ∷ r) ++ git_suffix git) ∷ bytes "tree" ∷ ss)
        → t ≢ []
        → trim_right t ≡ t
        → has_suffix (d ∷ r) (bytes ".git") ≡ false
        → (subpath : Text) → tree_parts (bytes "tree" ∷ ss ++ split t) ≡ (b ∷ ref, subpath)
        → url_parse raw
          ≡ some (
            bytes "github.com",
            slash ∷ joined ((c ∷ s) ∷ ((d ∷ r) ++ git_suffix git) ∷ bytes "tree" ∷ ss) t,
          )
        → parse_repo_url url_parse raw ≡ ok (page (b ∷ ref) subpath)
    read_below b ref t ss g n h k subpath tree e =
        parse_repo_url-joined url_parse raw c s (((d ∷ r) ++ git_suffix git) ∷ bytes "tree" ∷ ss) t
          g n h e
        ∙ repo_parts-named c d s r git (bytes "tree" ∷ ss ++ split t) k
        ∙ ap (λ x. ok (page x.0 x.1)) tree

    page_path-IsRead_below : (ref subpath : Text) → IsRead (page ref subpath)
    unfolding join_segments ◌==◌
    page_path-IsRead_below [] [] p e = page_path-IsRead_root p e
    page_path-IsRead_below [] (x ∷ subpath) p e = absurd (cc (p.subpath_ref refl))
    page_path-IsRead_below (b ∷ ref) [] p e =
        read_below b ref (b ∷ ref) []
          (p.owner_segment, (IsSegment-git (d ∷ r) git p.repo_segment, (tree-IsSegment, tt)))
          (λ e. cc) (trim_right-segment (b ∷ ref) p.ref_segment) p.not_git []
          (ap (λ x. tree_parts (bytes "tree" ∷ x)) (split-segment (b ∷ ref) p.ref_segment)) e
    page_path-IsRead_below (b ∷ ref) (x ∷ subpath) p e =
        read_below b ref (x ∷ subpath) ((b ∷ ref) ∷ [])
          (
            p.owner_segment,
            (IsSegment-git (d ∷ r) git p.repo_segment, (tree-IsSegment, (p.ref_segment, tt))),
          )
          (λ e. cc) (trim_right_none (x ∷ subpath) p.subpath_trim) p.not_git (x ∷ subpath)
          (read_tree b ref (x ∷ subpath)) e

  page_path-IsRead :
      (owner repo ref subpath : Text)
      → IsRead (record { owner = owner; repo = repo; ref = ref; subpath = subpath })
  page_path-IsRead [] repo ref subpath p e = absurd (p.owner_ne_nil refl)
  page_path-IsRead (c ∷ s) [] ref subpath p e = absurd (p.repo_ne_nil refl)
  page_path-IsRead (c ∷ s) (d ∷ r) ref subpath p e = page_path-IsRead_below c d s r ref subpath p e

  -- The URL of a repository's page, or of a directory in it at a branch or tag, is read back from the host
  -- and the path that net/url gives for it, with ".git" after the name and without.
  pub parse_repo_url-page_path :
      (u : RepoUrl)
      → IsPage u
      → url_parse raw ≡ some (bytes "github.com", page_path git u)
      → parse_repo_url url_parse raw ≡ ok u
  parse_repo_url-page_path u = page_path-IsRead u.owner u.repo u.ref u.subpath
