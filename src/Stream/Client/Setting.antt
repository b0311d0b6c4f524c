-- ===== src/Stream/Client/Setting.antt =====
-- stream/client.go over retain/server.go: what Set does, and its contract as a map of latest values.
use go_scada.Base.{
  ℕ, suc, Text, Bool, true, false, ◌||◌, ◌≡◌, refl, sym, ◌∙◌, ap, ◌≢◌, [], ◌∷◌, ◌++◌, Option, none,
  some, ok, err, Check, codes, is_empty, if_cases, trim_space, text_eq, text_eq_iff, arith,
  append_cancel_left, subst, Result, if◌then◌else◌, >>-eq_ok, fail_if, ok-injective,
}
use go_scada.Stream.Values.{string, Kind, encode_value, GoType, ValueOf}
use go_scada.Stream.Registry.{created_subject, created_of}
use go_scada.Stream.Subjects.{validate_operation, SubjectError, subject_required}
use go_scada.Stream.Client.{
  Environment, Stream, ClientError, should_announce, publish, reported, announce_payload,
  announce_created, after_publish, set_full, set_kind, set,
}
use go_scada.Stream.Client.Latest.{
  MarshalsBack, latest, Quiet, latest-Quiet, latest-Wrote_self, latest-Wrote_other, Published,
  publish-Published, should_announce-Quiet,
}

module _ (env : Environment) where
  abbrev pub full_of : Stream → Text → Text
  full_of s relative = s.system ++ codes "." ++ relative

  -- Every subject but the given one keeps its latest env value.
  abbrev Keeps : Text → Stream → Stream → Type 0
  Keeps full s t = (other : Text) → other ≢ full → latest env t other ≡ latest env s other

  Published-Keeps :
      (full : Text) (kind : Kind) (s : Stream) (r : Check ClientError × Stream)
      → Published env full kind s r
      → Keeps full s r.1
  Published-Keeps full kind s (ok _, t) w other apart =
      latest-Wrote_other env full other kind s t apart w
  Published-Keeps full kind s (err e, t) q other apart = latest-Quiet env s t other q

  -- An announcement announces nothing.
  announcing-same :
      (go : Text → Kind → Stream → Check ClientError × Stream) (announce : Bool)
      (r : Check ClientError × Stream)
      → after_publish env go announce created_subject r ≡ r
  unfolding after_publish announce_created text_eq
  announcing-same go announce (err e, s) = refl
  announcing-same go true (ok _, s) = refl
  announcing-same go false (ok _, s) = refl

  pub announcement :
      (depth : ℕ) (kind : Kind) (s : Stream)
      → set_kind env (suc depth) created_subject kind s
        ≡ publish env
            (full_of s created_subject)
            kind
            (should_announce env (full_of s created_subject) s).1
  unfolding set_kind set_full validate_operation trim_space
  announcement depth kind s = announcing-same (set_kind env depth) _ _

  reported-latest :
      (r : Check ClientError × Stream) (other : Text)
      → latest env (reported env r) other ≡ latest env r.1 other
  unfolding reported latest
  reported-latest (ok _, s) other = refl
  reported-latest (err e, s) other = refl

  announce_payload-Keeps :
      (depth : ℕ) (o : Option Text) (s : Stream)
      → MarshalsBack env
      → Keeps (full_of s created_subject) s (announce_payload env (set_kind env (suc depth)) o s)
  unfolding announce_payload latest
  announce_payload-Keeps depth none s back other apart = refl
  announce_payload-Keeps depth (some text) s back other apart =
      let full = full_of s created_subject in
      let kind = encode_value string text in
      let q = should_announce-Quiet env full s in
      reported-latest (set_kind env (suc depth) created_subject kind s) other
      ∙ ap (λ (r : Check ClientError × Stream). latest env r.1 other) (announcement depth kind s)
      ∙ Published-Keeps full kind (should_announce env full s).1
          (publish env full kind (should_announce env full s).1)
          (publish-Published env full kind (should_announce env full s).1 back) other apart
      ∙ latest-Quiet env s (should_announce env full s).1 other q

  Published-system :
      (full : Text) (kind : Kind) (s : Stream) (r : Check ClientError × Stream)
      → Published env full kind s r
      → r.1.system ≡ s.system
  Published-system full kind s (ok _, t) w = w.system
  Published-system full kind s (err e, t) q = q.system

  reported-system : (r : Check ClientError × Stream) → (reported env r).system ≡ r.1.system
  unfolding reported
  reported-system (ok _, s) = refl
  reported-system (err e, s) = refl

  announce_payload-system :
      (depth : ℕ) (o : Option Text) (s : Stream)
      → MarshalsBack env
      → (announce_payload env (set_kind env (suc depth)) o s).system ≡ s.system
  unfolding announce_payload
  announce_payload-system depth none s back = refl
  announce_payload-system depth (some text) s back =
      let full = full_of s created_subject in
      let kind = encode_value string text in
      let t = (should_announce env full s).1 in
      reported-system (set_kind env (suc depth) created_subject kind s)
      ∙ ap (λ (r : Check ClientError × Stream). r.1.system) (announcement depth kind s)
      ∙ Published-system full kind t (publish env full kind t)
          (publish-Published env full kind t back)
      ∙ (should_announce-Quiet env full s).system

  is_empty-append : (xs : Text) (y : ℕ) (ys zs : Text) → is_empty ((xs ++ y ∷ ys) ++ zs) ≡ false
  is_empty-append [] y ys zs = refl
  is_empty-append (x ∷ xs) y ys zs = refl

  -- What Set leaves, by what it returns: after an error every subject keeps its latest env value; otherwise the
  -- full subject has the value, and only that of the registry may change besides.
  abbrev pub Effect : Text → Kind → Stream → Check ClientError × Stream → Type 0
  Effect relative kind s (err e, t) = (other : Text) → latest env t other ≡ latest env s other
  Effect relative kind s (ok _, t) =
      (latest env t (full_of s relative) ≡ some kind)
      × ((other : Text)
          → other ≢ full_of s relative
          → other ≢ full_of s created_subject
          → latest env t other ≡ latest env s other)
      × (t.system ≡ s.system)

  announce-Effect :
      (announce : Bool) (relative : Text) (kind : Kind) (s t : Stream)
      → MarshalsBack env
      → t.system ≡ s.system
      → Effect relative kind s (ok tt, t)
      → Effect relative kind s
          (ok tt, if announce then announce_created env (set_kind env 1) relative t else t)
  unfolding announce_created
  announce-Effect announce relative kind s t back same h =
      if_cases (λ (u : Stream). Effect relative kind s (ok tt, u)) announce _ _
        (λ _.
          if_cases (λ (u : Stream). Effect relative kind s (ok tt, u))
            (is_empty relative || text_eq relative created_subject) _ _ (λ _. h)
            (λ plain.
              let keeps : Keeps (full_of s created_subject) t (
                  announce_payload env (set_kind env 1) (env.encode_created (created_of relative))
                    t) =
                subst
                  (λ system. Keeps (system ++ codes "." ++ created_subject) t (
                    announce_payload env (set_kind env 1) (env.encode_created (created_of relative))
                      t))
                  same
                  (announce_payload-Keeps 0 (env.encode_created (created_of relative)) t back) in
              let apart : full_of s relative ≢ full_of s created_subject = λ e. ground (
                arith,
                plain,
                text_eq_iff relative created_subject,
                append_cancel_left (s.system ++ codes ".") relative created_subject e,
              ) in
              let (value, others, system) = h in
              (
                keeps (full_of s relative) apart ∙ value,
                λ other a b. keeps other b ∙ others other a b,
                announce_payload-system 0 (env.encode_created (created_of relative)) t back
                    ∙ system,
              )))
        (λ _. h)

  after_publish-Effect :
      (announce : Bool) (relative : Text) (kind : Kind) (s t : Stream)
      (r : Check ClientError × Stream)
      → MarshalsBack env
      → Quiet env s t
      → Published env (full_of s relative) kind t r
      → Effect relative kind s (after_publish env (set_kind env 1) announce relative r)
  unfolding after_publish
  after_publish-Effect announce relative kind s t (err e, u) back q p =
      λ other. latest-Quiet env t u other p ∙ latest-Quiet env s t other q
  after_publish-Effect announce relative kind s t (ok _, u) back q p =
      announce-Effect announce relative kind s u back (p.system ∙ q.system) (
        latest-Wrote_self env (full_of s relative) kind t u
            (is_empty-append s.system b'.' [] relative) p,
        λ other a b.
            latest-Wrote_other env (full_of s relative) other kind t u a p
            ∙ latest-Quiet env s t other q,
        p.system ∙ q.system,
      )

  validated :
      (subject full : Text) (s : Stream)
      → validate_operation s.system subject ≡ ok full
      → full ≡ full_of s (trim_space subject)
  unfolding validate_operation
  validated subject full s v =
      let (_, same) =
        >>-eq_ok (fail_if (is_empty (trim_space subject)) subject_required)
          (ok (s.system ++ codes "." ++ trim_space subject)) v in
      sym (ok-injective same)

  set_full-Effect :
      (subject : Text) (kind : Kind) (r : Result SubjectError Text) (s : Stream)
      → MarshalsBack env
      → validate_operation s.system subject ≡ r
      → Effect
          (trim_space subject)
          kind
          s
          (set_full env (set_kind env 1) (trim_space subject) kind r s)
  unfolding set_full
  set_full-Effect subject kind (err e) s back v = λ other. refl
  set_full-Effect subject kind (ok full) s back v =
      let (announce, t) = should_announce env full s in
      let is : full ≡ full_of s (trim_space subject) = validated subject full s v in
      after_publish-Effect announce (trim_space subject) kind s t (publish env full kind t) back
        (should_announce-Quiet env full s)
        (subst (λ f. Published env f kind t (publish env full kind t)) is
          (publish-Published env full kind t back))

-- Set keeps the contract of a map from full subjects to their latest env values, where everything on the wire
-- counts as arrived. If it returns an error, no subject changes. Otherwise the subject has the encoded
-- value, and no other subject changes, but for that of the registry's announcements.
pub set_refines :
    (env : Environment) (V : GoType) (subject : Text) (x : ValueOf V) (s : Stream)
    → MarshalsBack env
    → Effect env (trim_space subject) (encode_value V x) s (set env V subject x s)
unfolding set set_kind
set_refines env V subject x s back =
    set_full-Effect env subject (encode_value V x) (validate_operation s.system subject) s back refl
