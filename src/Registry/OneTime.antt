-- ===== src/Registry/OneTime.antt =====
-- A password-reset token is good for one reset, and only until it expires.
use agentreg.Base.{
  Bool, Bool-cases, inl, inr, ◌⊎◌, eqb, update_where, ap, ◌∙◌, ℕ, Text, ◌==◌, true, false, some,
  none, Option, List, [], ◌∷◌, ok, find, find-append_found, find-passes, find-update_where,
  token_invalid, ◌≡◌, ◌≢◌, refl, sym, subst, ok-injective, arith, if◌then◌else◌, ltb, ◌≤◌,
}
use native.Mathlib.Nat.{le_refl}
use agentreg.Store.{Time, NewVersion, format_rfc3339, parse_rfc3339}
use agentreg.World.{Db, World, ResetRow}
use agentreg.World.Ensures.{
  Ensures, Ensures-transaction, Ensures-bind, Ensures-query, Ensures-if, Ensures-fail,
  Ensures-time_now, Ensures-exec, Ensures-pure, Ensures-weaken,
}
use agentreg.Sqlite.{Ensures-row_or}
use agentreg.Sqlite.Users.{set_password, update_password}
use agentreg.Sqlite.Plugins.{insert_version}
use agentreg.Sqlite.Recovery.{
  find_reset, reset_row, is_set, insert_reset, mark_used, consume_password_reset,
}
use agentreg.Sqlite.Stable.{Stable, Preserves, PreservesOk}
use agentreg.Sqlite.Tables.{Stable-resets, PublishStable-resets}
use agentreg.Registry.{Registry, confirm_password_reset}
use agentreg.Registry.History.{Call, run, run-keeps, Keeps-publish}

-- Row by row: `f` has been applied to the rows that pass the test, and the others are as they were.
abbrev pub AreChanged : {A : Type 0} → (A → Bool) → (A → A) → List A → List A → Type 0
AreChanged p f [] [] = Unit
AreChanged p f [] (y ∷ ys) = ⊥
AreChanged p f (x ∷ xs) [] = ⊥
AreChanged p f (x ∷ xs) (y ∷ ys) =
    (((p x ≡ true) × (y ≡ f x)) ⊎ ((p x ≡ false) × (y ≡ x))) × AreChanged p f xs ys

-- A row with the token's hash was stored in `d`, unused, and with an expiry that was not before `now`; `d'` has
-- the new password hash for the user of that row, and the row is marked as used.
pub record Reset (d : Db) (now : Time) (token_hash hash : Text) (d' : Db) : Type 0 where
  pub row : ResetRow
  pub used : ℕ
  pub found : find (λ x. x.token_hash == token_hash) d.resets ≡ some row
  pub unused : row.used_at ≡ none
  pub in_time : now ≤ parse_rfc3339 row.expires_at
  pub users :
      AreChanged
        (λ u. eqb u.id row.user_id)
        (λ u. record u { password_hash = hash })
        d.users
        d'.users
  pub resets :
      AreChanged
        (λ x. x.token_hash == token_hash)
        (λ x. record x { used_at = some used })
        d.resets
        d'.resets
  pub others : d' ≡ record d { users = d'.users; resets = d'.resets }

update_where-AreChanged :
    {A : Type 0} (p : A → Bool) (f : A → A) (xs : List A) → AreChanged p f xs (update_where p f xs)
update_where-AreChanged p f [] = tt
update_where-AreChanged p f (x ∷ xs) = elim (Bool-cases (p x)) [
  | inl e ↦ rw e (inl (refl, refl), update_where-AreChanged p f xs)
  | inr e ↦ rw e (inr (refl, refl), update_where-AreChanged p f xs)
]

-- What a success of `consume_password_reset` has found in the tables `d`, at a clock that was not
-- before `now`, and what it has made of them.
pub record Consumed (token_hash : Text) (d : Db) (now : Time) (user_id : ℕ) (d' : Db) : Type 0 where
  pub row : ResetRow
  pub found : find_reset token_hash d ≡ some row
  pub owner : row.user_id ≡ user_id
  pub unused : row.used_at ≡ none
  pub in_time : now ≤ parse_rfc3339 row.expires_at
  pub used : Time
  pub after : d' ≡ mark_used token_hash (format_rfc3339 used) d

unset : {A : Type 0} (o : Option A) → is_set o ≡ false → o ≡ none
unset none h = refl
unset (some a) h = cc

consume_password_reset-Ensures :
    (token_hash : Text) (d : Db) (now : Time)
    → Ensures
        (λ d1 b t. (d1 ≡ d) × (now ≤ t))
        (consume_password_reset token_hash)
        (λ n d' b t. Consumed token_hash d now n d')
unfolding consume_password_reset
consume_password_reset-Ensures token_hash d now = Ensures-transaction _ (
    Ensures-bind _ _ _ (Ensures-query _) λ found.
      Ensures-bind _ _ _ (Ensures-row_or token_invalid found) λ row.
        Ensures-if (is_set row.used_at) _ _ (λ used. Ensures-fail token_invalid)
          λ fresh. Ensures-bind _ _ _ Ensures-time_now λ t1.
            Ensures-if (ltb (parse_rfc3339 row.expires_at) t1) _ _
              (λ late. Ensures-fail token_invalid)
              λ in_time. Ensures-bind _ _ _ Ensures-time_now λ t2.
                Ensures-bind _ _ _ (Ensures-exec _) λ _. Ensures-pure row.user_id λ d' b t x.
                  record {
                    row = row;
                    found = cc (x.1.1.1.1.1.0.0.0, x.1.1.1.1.1.0.1, x.1.1.1.1.1.1);
                    owner = refl;
                    unused = unset row.used_at fresh;
                    in_time = ground (arith, x.1.1.1.1);
                    used = t2;
                    after = cc (x.1.1.1.1.1.0.0.0, x.2);
                  })

module _ (token_hash : Text) where
  -- The token was there and has been used.
  abbrev pub IsSpent : List ResetRow → Type 0
  IsSpent rows =
      (row : ResetRow) × (find (λ r. r.token_hash == token_hash) rows ≡ some row)
      × (is_set row.used_at ≡ true)

  insert_reset-IsSpent :
      (user_id : ℕ) (hash : Text) (at : ℕ)
      → PreservesOk (λ d b. IsSpent d.resets) (insert_reset user_id hash at)
  unfolding insert_reset
  insert_reset-IsSpent user_id hash at d d' b e (row, found, u) = (
    row,
    ground (
      arith,
      find-append_found (λ r. r.token_hash == token_hash) d.resets (reset_row user_id hash at ∷ [])
          row,
    ),
    u,
  )

  insert_version-IsSpent :
      (v : NewVersion) (at : ℕ) → PreservesOk (λ d b. IsSpent d.resets) (insert_version v at)
  unfolding insert_version
  insert_version-IsSpent v at d d' b e (row, found, u) = (row, ground (arith), u)

  mark_used-IsSpent :
      (hash : Text) (at : ℕ) → Preserves (λ d b. IsSpent d.resets) (mark_used hash at)
  unfolding mark_used
  mark_used-IsSpent hash at d b (row, found, u) = (
    if row.token_hash == hash then record row { used_at = some at } else row,
    rw (
      find-update_where (λ r. r.token_hash == token_hash) (λ r. r.token_hash == hash)
          (λ r. record r { used_at = some at }) d.resets (λ r. refl),
      found,
    ),
    ground arith,
  )

  IsSpent-Stable : Stable (λ d b. IsSpent d.resets)
  IsSpent-Stable = Stable-resets (λ rows b. IsSpent rows) insert_reset-IsSpent mark_used-IsSpent

  Consumed-IsSpent : (d d' : Db) (now n : ℕ) → Consumed token_hash d now n d' → IsSpent d'.resets
  unfolding find_reset mark_used
  Consumed-IsSpent d d' now n c = (
    record c.row { used_at = some (format_rfc3339 c.used) },
    ground (
      arith,
      c.after,
      find-passes (λ r. r.token_hash == token_hash) d.resets c.row c.found,
      find-update_where (λ r. r.token_hash == token_hash) (λ r. r.token_hash == token_hash)
          (λ r. record r { used_at = some (format_rfc3339 c.used) }) d.resets (λ r. refl),
      c.found,
    ),
    refl,
  )

  IsSpent-refused : (d d' : Db) (now n : ℕ) → IsSpent d.resets → Consumed token_hash d now n d' → ⊥
  unfolding find_reset
  IsSpent-refused d d' now n (row, found, u) c = ground (arith, c.found, c.unused)

module _ (r : Registry) (token : Text) where
  confirm_password_reset-Ensures :
      (hash : Text) (d : Db) (now : Time)
      → Ensures
          (λ d1 b t. (d1 ≡ d) × (now ≤ t))
          (confirm_password_reset r token hash)
          (λ u d' b t.
            (n : ℕ) × (d1 : Db) × Consumed (r.sha256 token) d now n d1
            × (d' ≡ set_password n hash d1))
  unfolding confirm_password_reset update_password
  confirm_password_reset-Ensures hash d now =
      Ensures-bind _ _ _ (consume_password_reset-Ensures (r.sha256 token) d now) λ n.
        Ensures-weaken _ _ _ (λ d b t h. h) (λ u d' b t h. (n, h.0, h.1, sym (ok-injective h.2)))
          (Ensures-exec _)

  -- When a reset with the token succeeds, a row with the token's hash was stored, unused, and with an expiry
  -- that was not before the clock. Of each user row afterwards: the user of that row has the new password
  -- hash, and is as before otherwise; any other user is as before. Of each reset row: those with the token's
  -- hash are marked as used, and the others are as before. No other table has changed.
  pub confirm_password_reset-effect :
      (w : World) (hash : Text)
      → (confirm_password_reset r token hash w).0 ≡ ok tt
      → Reset w.db w.env.now (r.sha256 token) hash (confirm_password_reset r token hash w).1.db
  unfolding set_password mark_used find_reset
  confirm_password_reset-effect w hash e =
      let (n, d1, c, k) =
        (confirm_password_reset-Ensures hash w.db w.env.now).at w tt (refl, le_refl _) e in
      let after = k ∙ ap (set_password n hash) c.after in
      record {
        row = c.row;
        used = format_rfc3339 c.used;
        found = c.found;
        unused = c.unused;
        in_time = c.in_time;
        users =
            subst
              (AreChanged (λ u. eqb u.id c.row.user_id) (λ u. record u { password_hash = hash })
                w.db.users)
              (sym (ap (λ d. d.users) after))
              (subst
                (λ i.
                  AreChanged (λ u. eqb u.id i) (λ u. record u { password_hash = hash }) w.db.users
                    (set_password n hash w.db).users)
                (sym c.owner)
                (update_where-AreChanged (λ u. eqb u.id n) (λ u. record u { password_hash = hash })
                  w.db.users));
        resets =
            subst
              (AreChanged (λ x. x.token_hash == r.sha256 token)
                (λ x. record x { used_at = some (format_rfc3339 c.used) }) w.db.resets)
              (sym (ap (λ d. d.resets) after))
              (update_where-AreChanged (λ x. x.token_hash == r.sha256 token)
                (λ x. record x { used_at = some (format_rfc3339 c.used) }) w.db.resets);
        others = rw after refl;
      }

  -- Once a reset with the token has succeeded, no reset with it succeeds again, whatever calls are
  -- made in between.
  pub confirm_password_reset-once :
      (w : World) (cs : List Call) (hash hash' : Text)
      → (confirm_password_reset r token hash w).0 ≡ ok tt
      → (confirm_password_reset r token hash'
          (run r cs (confirm_password_reset r token hash w).1)).0
        ≢ ok tt
  unfolding set_password
  confirm_password_reset-once w cs hash hash' first again =
      let (n, d1, c, e) =
        (confirm_password_reset-Ensures hash w.db w.env.now).at w tt (refl, le_refl _) first in
      let spent =
        run-keeps r (IsSpent-Stable (r.sha256 token))
          (Keeps-publish r (PublishStable-resets (λ rows b. IsSpent (r.sha256 token) rows))
            (insert_version-IsSpent (r.sha256 token)) (λ d b target content missing h. h))
          cs _
          (subst (λ d. IsSpent (r.sha256 token) d.resets) (sym e)
            (Consumed-IsSpent (r.sha256 token) w.db d1 w.env.now n c)) in
      let w2 = run r cs (confirm_password_reset r token hash w).1 in
      let (n2, d2, c2, e2) =
        (confirm_password_reset-Ensures hash' w2.db w2.env.now).at w2 tt (refl, le_refl _) again in
      IsSpent-refused (r.sha256 token) w2.db d2 w2.env.now n2 spent c2
