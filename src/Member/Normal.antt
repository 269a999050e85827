-- ===== src/Member/Normal.antt =====
-- What `NormalizeProfile` accepts and returns.
use gouterstellar_platform.Base.{
  Bool-cases, Option-cases, ok, length, ◌≤◌, ◌≡◌, refl, sym, ap, subst, ◌∙◌, ◌≢◌, ◌↔◌, ◌⊎◌, inl,
  inr, true, false, Option, none, some, [], arith,
}
use gouterstellar_platform.Text.{Bytes, codes, is_empty, text_eq_iff}
use gouterstellar_platform.Text.Trim.Laws.{trim_space_idem}
use gouterstellar_platform.Text.Fields.{is_empty_iff, is_empty-false}
use gouterstellar_platform.Text.Runes.{rune_count}
use gouterstellar_platform.Member.Profiles.{
  Profile, Link, trimmed, too_long, bad_link, normalize_profile,
}

module _ (parse : Bytes → Option Link) where
  -- An absolute web address with a host and no user.
  pub record IsWebsite (website : Bytes) : Type 0 where
    pub link : Link
    pub parsed : parse website ≡ some link
    pub web : (link.scheme ≡ codes "https") ⊎ (link.scheme ≡ codes "http")
    pub host : link.hostname ≢ []
    pub no_user : link.has_user ≡ false

  pub record IsProfile (p : Profile) : Type 0 where
    pub name_bound : rune_count p.display_name ≤ 80
    pub headline_bound : rune_count p.headline ≤ 120
    pub location_bound : rune_count p.location ≤ 120
    pub pronouns_bound : rune_count p.pronouns ≤ 60
    pub bio_bound : rune_count p.bio ≤ 1000
    pub website_bound : length p.website ≤ 300
    pub named : p.public ≡ true → p.display_name ≢ []
    pub website_ok : p.website ≢ [] → IsWebsite p.website

  IsWebsite-some :
      (w : Bytes) (link : Link) → parse w ≡ some link → bad_link (some link) ≡ false → IsWebsite w
  unfolding bad_link
  IsWebsite-some w link e h = record {
    link = link;
    parsed = e;
    web =
        ground
          (arith, text_eq_iff link.scheme (codes "https"), text_eq_iff link.scheme (codes "http"));
    host = ground (arith, is_empty_iff link.hostname);
    no_user = ground arith;
  }

  bad_link-none : bad_link none ≡ true
  unfolding bad_link
  bad_link-none = refl

  bad_link-false : (w : Bytes) → bad_link (parse w) ≡ false → IsWebsite w
  bad_link-false w h = elim (Option-cases (parse w)) [
    | inl e ↦ cc (ap bad_link e, h, bad_link-none)
    | inr (link, e) ↦ IsWebsite-some w link e (sym (ap bad_link e) ∙ h)
  ]

  bad_link-IsWebsite : (w : Bytes) → IsWebsite w → bad_link (parse w) ≡ false
  unfolding bad_link
  bad_link-IsWebsite w v =
      rw (v.parsed, bad_link)
        (ground (
          arith,
          text_eq_iff v.link.scheme (codes "https"),
          text_eq_iff v.link.scheme (codes "http"),
          is_empty_iff v.link.hostname,
          v.web,
          v.host,
          v.no_user,
        ))

  trimmed_idem : (p : Profile) → trimmed (trimmed p) ≡ trimmed p
  unfolding trimmed
  trimmed_idem p = ground (
    arith,
    trim_space_idem p.display_name,
    trim_space_idem p.headline,
    trim_space_idem p.location,
    trim_space_idem p.pronouns,
    trim_space_idem p.bio,
    trim_space_idem p.website,
  )

  not_too_long :
      (p : Profile) → (p.website ≢ [] → IsWebsite p.website) → too_long p ≡ false → IsProfile p
  unfolding too_long
  not_too_long p w h = record {
    name_bound = ground arith;
    headline_bound = ground arith;
    location_bound = ground arith;
    pronouns_bound = ground arith;
    bio_bound = ground arith;
    website_bound = ground arith;
    named = λ public empty. ground (arith, is_empty_iff p.display_name);
    website_ok = w;
  }

  IsProfile-too_long : (p : Profile) → IsProfile p → too_long p ≡ false
  unfolding too_long
  IsProfile-too_long p v = ground (arith, is_empty_iff p.display_name, v.named)

  passed :
      (p q : Profile)
      → normalize_profile parse p ≡ ok q
      → (q ≡ trimmed p)
        × (too_long (trimmed p) ≡ false)
        × ((trimmed p).website ≢ [] → bad_link (parse (trimmed p).website) ≡ false)
  unfolding normalize_profile
  passed p q h = (ground arith, ground arith, λ w. ground (arith, is_empty_iff (trimmed p).website))

  accepted : (p : Profile) → IsProfile (trimmed p) → normalize_profile parse p ≡ ok (trimmed p)
  unfolding normalize_profile
  accepted p v = elim (Bool-cases (is_empty (trimmed p).website)) [
    | inl e ↦ ground (arith, IsProfile-too_long (trimmed p) v)
    | inr e ↦ ground (
      arith,
      IsProfile-too_long (trimmed p) v,
      bad_link-IsWebsite (trimmed p).website (v.website_ok (is_empty-false (trimmed p).website e)),
    )
  ]

  -- A profile is accepted exactly when its trimmed fields are in their bounds, a public one is
  -- named, and a website is an http or https address with a host and no user; the result is then
  -- the trimmed profile.
  pub normalize_profile_iff :
      (p q : Profile) → (normalize_profile parse p ≡ ok q) ↔ ((q ≡ trimmed p) × IsProfile q)
  normalize_profile_iff p q = (forth, back)
    where
      forth : normalize_profile parse p ≡ ok q → (q ≡ trimmed p) × IsProfile q
      forth h =
          let (e, short, link) = passed p q h in
          (
            e,
            subst IsProfile (sym e)
                (not_too_long (trimmed p) (λ w. bad_link-false _ (link w)) short),
          )

      back : (q ≡ trimmed p) × IsProfile q → normalize_profile parse p ≡ ok q
      back (e, v) =
          subst (λ r. normalize_profile parse p ≡ ok r) (sym e) (accepted p (subst IsProfile e v))

  -- Normalizing a profile that was normalized returns it unchanged.
  pub normalize_profile_idem :
      (p q : Profile) → normalize_profile parse p ≡ ok q → normalize_profile parse q ≡ ok q
  normalize_profile_idem p q h =
      let (e, v) = (normalize_profile_iff p q).0 h in
      (normalize_profile_iff q q).1 (e ∙ sym (trimmed_idem p) ∙ ap trimmed (sym e), v)
