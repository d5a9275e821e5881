-- ===== src/Api/Publishing.antt =====
-- What a response to a publish means.
use agentreg.Base.{
  sym, ℕ, Text, eqb, Bool-cases, false, Option, none, some, Error, Result, ok, err, conflict,
  forbidden, not_found, token_invalid, invalid_input, driver, wrap, ◌⊎◌, inl, inr, ◌≡◌, refl, subst,
  arith,
}
use agentreg.Store.{Time, User, Version}
use agentreg.World.{Db, World, M, pure}
use agentreg.World.Ensures.{Ensures, Ensures-bind, Ensures-pure}
use agentreg.World.Then.{OnOk, Ensures-outcome}
use agentreg.Manifest.{Bundle}
use agentreg.Registry.{Registry, PublishInput, publish}
use agentreg.Registry.Published.Whole.{Published, publish-Published}
use agentreg.Api.Plugins.{
  Reply, reply, published, is_invalid_input, invalid_or_internal, write_publish_error,
  published_reply, publish_input, publish_bundle, refusal_reply, publish_received, publish_dated,
  handle_publish,
}
use agentreg.Path.{clean}
use agentreg.Pack.{is_inside}
use agentreg.Api.Receive.{
  Upload, Refusal, internal, told, failed, Received, refused, received, receive, tarball_path,
  extract_dir,
}
use agentreg.Api.Received.{IsReceived, IsRefusal, receive-IsReceived, receive-IsRefusal}

invalid_or_internal-refused : (e : Error) → eqb (invalid_or_internal e).status 201 ≡ false
unfolding invalid_or_internal
invalid_or_internal-refused e = elim (Bool-cases (is_invalid_input e)) [
  | inl i ↦ rw i refl
  | inr i ↦ rw i refl
]

write_publish_error-refused : (e : Error) → eqb (write_publish_error e).status 201 ≡ false
unfolding write_publish_error
write_publish_error-refused forbidden = refl
write_publish_error-refused conflict = refl
write_publish_error-refused not_found = invalid_or_internal-refused not_found
write_publish_error-refused token_invalid = invalid_or_internal-refused token_invalid
write_publish_error-refused invalid_input = invalid_or_internal-refused invalid_input
write_publish_error-refused (driver m) = invalid_or_internal-refused (driver m)
write_publish_error-refused (wrap m e) = invalid_or_internal-refused (wrap m e)

refusal-refused : (x : Refusal) → IsRefusal x → eqb (refusal_reply x).status 201 ≡ false
unfolding refusal_reply
refusal-refused internal h = refl
refusal-refused (told status m) h = h
refusal-refused (failed status e) h = h

module _ (r : Registry) (user : Option User) (scope name version : Text) (u : Upload)
    (d0 : Db) where
  -- A user was there, the body was received as an archive within the limit that unpacks to a directory that
  -- validates, and the publish of that body is recorded under the user's own name.
  pub record Created (rep : Reply) (d' : Db) : Type 0 where
    pub who : User
    pub authenticated : user ≡ some who
    pub bundle : Bundle
    pub is_received : IsReceived u (bundle, u.body)
    pub at : Time
    pub v : Version
    pub answer : rep ≡ reply 201 (published v)
    pub recorded : Published r (publish_input who scope name version at u.body bundle) d0 v d'

  abbrev Meets : M Reply → Type 0
  Meets m = Ensures (λ d b t. d ≡ d0) m (λ rep d b t. (eqb rep.status 201 ≡ false) ⊎ Created rep d)

  abbrev refuses : (rep : Reply) → eqb rep.status 201 ≡ false → Meets (pure rep)
  refuses rep h = Ensures-pure rep (λ d b t e. inl h)

  publish-Ensures :
      (i : PublishInput)
      → Ensures (λ d b t. d ≡ d0) (publish r i) (λ v d' b t. Published r i d0 v d')
  publish-Ensures i = record {
    at = λ w v h e.
        subst (λ d. Published r i d v (publish r i w).1.db) h (publish-Published r i w v e);
  }

  module _ (apart : is_inside (tarball_path u) (clean (extract_dir u)) ≡ false) (who : User)
      (authenticated : user ≡ some who) (at : Time) where
    module _ (bundle : Bundle) (is_received : IsReceived u (bundle, u.body)) where
      published_reply-Meets :
          (outcome : Result Version)
          → Ensures
              (OnOk
                (λ v d b t.
                  Published r (publish_input who scope name version at u.body bundle) d0 v d)
                outcome)
              (pure (published_reply outcome))
              (λ rep d b t. (eqb rep.status 201 ≡ false) ⊎ Created rep d)
      unfolding published_reply
      published_reply-Meets (err e) =
          Ensures-pure _ (λ d b t h. inl (write_publish_error-refused e))
      published_reply-Meets (ok v) = Ensures-pure _ λ d b t h. inr (record {
        who = who;
        authenticated = authenticated;
        bundle = bundle;
        is_received = is_received;
        at = at;
        v = v;
        answer = refl;
        recorded = h;
      })

      publish_bundle-Meets :
          Meets (publish_bundle r (publish_input who scope name version at u.body bundle))
      unfolding publish_bundle
      publish_bundle-Meets =
          Ensures-bind _ _ _ (Ensures-outcome _ (publish-Ensures _))
            λ outcome. published_reply-Meets outcome

    publish_received-Meets :
        (x : Received (Bundle × Text))
        → (receive u u.disk).0 ≡ x
        → Meets (publish_received r who scope name version at x)
    unfolding publish_received
    publish_received-Meets (refused x) h =
        refuses _ (refusal-refused x (receive-IsRefusal u u.disk x h))
    publish_received-Meets (received (bundle, content)) h =
        let all_of_it = receive-IsReceived u apart u.disk (bundle, content) h in
        subst (λ c. Meets (publish_bundle r (publish_input who scope name version at c bundle)))
          (sym all_of_it.is_body)
          (publish_bundle-Meets bundle
            (subst (λ c. IsReceived u (bundle, c)) all_of_it.is_body all_of_it))

  module _ (apart : is_inside (tarball_path u) (clean (extract_dir u)) ≡ false) where
    publish_dated-Meets :
        (who : User)
        → user ≡ some who
        → (date : Option (Option Time)) → Meets (publish_dated r who scope name version u date)
    unfolding publish_dated
    publish_dated-Meets who h (some none) = refuses _ refl
    publish_dated-Meets who h (some (some t)) = publish_received-Meets apart who h t _ refl
    publish_dated-Meets who h none = publish_received-Meets apart who h 0 _ refl

    handle_publish-Meets :
        (o : Option User) (date : Option (Option Time))
        → user ≡ o
        → Meets (handle_publish r o scope name version date u)
    unfolding handle_publish
    handle_publish-Meets none date h = refuses _ refl
    handle_publish-Meets (some who) date h = publish_dated-Meets who h date

-- Let the archive's path not be in the directory that it is unpacked to. When the response to a publish has
-- status 201, the request had a user; its body was read to the end and within the limit, unpacks, and gives a
-- directory that validates; and the publish of that body and bundle under the user's own name is recorded. The
-- response has the version that was recorded.
pub handle_publish-Created :
    (r : Registry) (user : Option User) (scope name version : Text) (date : Option (Option Time))
    (u : Upload) (w : World) (rep : Reply)
    → is_inside (tarball_path u) (clean (extract_dir u)) ≡ false
    → (handle_publish r user scope name version date u w).0 ≡ ok rep
    → rep.status ≡ 201
    → Created r user scope name version u w.db rep
        (handle_publish r user scope name version date u w).1.db
handle_publish-Created r user scope name version date u w rep apart e s =
    created
      ((handle_publish-Meets r user scope name version u w.db apart user date refl).at w rep refl e)
  where
    not_created : (n : ℕ) → eqb n 201 ≡ false → n ≡ 201 → ⊥
    not_created n h k = ground arith

    created :
        (eqb rep.status 201 ≡ false)
          ⊎ Created r user scope name version u w.db rep
              (handle_publish r user scope name version date u w).1.db
        → Created r user scope name version u w.db rep
            (handle_publish r user scope name version date u w).1.db
    created (inl h) = absurd (not_created rep.status h s)
    created (inr done) = done
