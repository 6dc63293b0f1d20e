-- ===== src/Dash/Absolute.antt =====
-- The base URIs of a manifest's representations.
use pvn_project.Base.{
  >>=-some, ℕ, ◌≡◌, sym, ◌∙◌, inl, inr, Bool-cases, List, ◌∷◌, ◌++◌, Option, some, Option-cases,
  All, append-All, string_eq, subst,
}
use pvn_project.Dash.Names.{names}
use pvn_project.Dash.Text.{parse_u32}
use pvn_project.Dash.Xml.{
  attribute, resolve_template, Element, element, Nodes, nil, tag, other, name_of, Libraries,
  TranscodeTarget, resolve_uri, extract_base_uri, base_or, filter_children, over_children,
  target_of, prepare_representation, is_video, prepare_adaptation_set, prepare_period,
  prepare_dash_representations,
}

module _ {U S A X : Type 0} (lib : Libraries U S A X) where
  abbrev pub IsAbsolute : U → Type 0
  IsAbsolute u = (s : S) × (a : A) × (lib.scheme u ≡ some s) × (lib.authority u ≡ some a)

  -- The base URI of each target is absolute.
  abbrev pub AllAbsolute : List (TranscodeTarget U X) → Type 0
  AllAbsolute targets = All (λ (t : TranscodeTarget U X). IsAbsolute t.base_uri) targets

  -- The parts that are put into a URI are its parts, and what starts with an absolute URI and a
  -- slash is an absolute URI, if it is a URI.
  pub record LibraryLaws : Type 0 where
    pub scheme-from_parts :
        (u : U) (s : Option S) (a : Option A) {v : U}
        → lib.from_parts u s a ≡ some v
        → lib.scheme v ≡ s
    pub authority-from_parts :
        (u : U) (s : Option S) (a : Option A) {v : U}
        → lib.from_parts u s a ≡ some v
        → lib.authority v ≡ a
    pub parse-IsAbsolute :
        (root : U) (text : List ℕ) {v : U}
        → IsAbsolute root
        → lib.parse (lib.to_string root ++ (b'/' ∷ text)) ≡ some v
        → IsAbsolute v

module _ {U S A X : Type 0} (lib : Libraries U S A X) (laws : LibraryLaws lib) where
  resolve_uri-IsAbsolute :
      (root : U) (text : List ℕ) {v : U}
      → IsAbsolute lib root
      → resolve_uri lib root text ≡ some v
      → IsAbsolute lib v
  unfolding resolve_uri
  resolve_uri-IsAbsolute root text {v} abs h = elim (Option-cases (lib.parse text)) [
    | inl relative ↦ laws.parse-IsAbsolute root text abs (rw (relative, resolve_uri) at h)
    | inr (u, parsed) ↦ elim (Option-cases (lib.authority u)) [
      | inl path ↦
          let made : lib.from_parts u (lib.scheme root) (lib.authority root) ≡ some v =
            rw (parsed, path, resolve_uri) at h in
          (
            abs.0,
            abs.1,
            laws.scheme-from_parts u _ _ made ∙ abs.2,
            laws.authority-from_parts u _ _ made ∙ abs.3,
          )
      | inr (a, has) ↦ elim (Option-cases (lib.scheme u)) [
        | inl bare ↦
            let made : lib.from_parts u (lib.scheme root) (some a) ≡ some v =
              rw (parsed, has, bare, resolve_uri) at h in
            (
              abs.0,
              a,
              laws.scheme-from_parts u _ _ made ∙ abs.2,
              laws.authority-from_parts u _ _ made,
            )
        | inr (s, full) ↦
            let same : some u ≡ some v = rw (parsed, has, full, resolve_uri) at h in
            subst (IsAbsolute lib) (inner same) (s, a, full, has)
      ]
    ]
  ]
    where
      inner : {u : U} → some u ≡ some v → u ≡ v
      inner x = cc

  pub base_or-IsAbsolute :
      (root : U) (ele : Element) (base : U)
      → IsAbsolute lib root
      → IsAbsolute lib base
      → IsAbsolute lib (base_or lib root ele base)
  unfolding base_or extract_base_uri
  base_or-IsAbsolute root ele base abs h = elim (Option-cases (lib.get_child names.base_url ele)) [
    | inl bare ↦ rw (bare, base_or) h
    | inr (child, there) ↦ elim (Option-cases (lib.get_text child)) [
      | inl bare ↦ rw (there, bare, base_or) h
      | inr (text, reads) ↦ elim (Option-cases (resolve_uri lib root text)) [
        | inl bad ↦ rw (there, reads, bad, base_or) h
        | inr (u, good) ↦
            rw (there, reads, good, base_or) (resolve_uri-IsAbsolute root text abs good)
      ]
    ]
  ]

  filter_children-AllAbsolute :
      (name : List ℕ) (visit : Element → Element × List (TranscodeTarget U X)) (nodes : Nodes)
      → ((ele : Element) → AllAbsolute lib (visit ele).1)
      → AllAbsolute lib (filter_children lib name visit nodes).1
  unfolding filter_children
  filter_children-AllAbsolute name visit nil h = tt
  filter_children-AllAbsolute name visit (other nodes) h =
      filter_children-AllAbsolute name visit nodes h
  filter_children-AllAbsolute name visit (tag ele nodes) h =
      elim (Bool-cases (string_eq (name_of ele) name)) [
        | inl hit ↦ rw hit (
            append-All (λ (t : TranscodeTarget U X). IsAbsolute lib t.base_uri) (visit ele).1 _
              (h ele) (filter_children-AllAbsolute name visit nodes h))
        | inr miss ↦ rw miss (filter_children-AllAbsolute name visit nodes h)
      ]

  over_children-AllAbsolute :
      (name : List ℕ) (visit : Element → Element × List (TranscodeTarget U X)) (ele : Element)
      → ((child : Element) → AllAbsolute lib (visit child).1)
      → AllAbsolute lib (over_children lib name visit ele).1
  unfolding over_children
  over_children-AllAbsolute name visit (element own attributes children) h =
      filter_children-AllAbsolute name visit children h

  target_of-base_uri :
      (root base : U) (representation : Element) {t : TranscodeTarget U X}
      → target_of lib root base representation ≡ some t
      → t.base_uri ≡ base_or lib root representation base
  unfolding target_of
  target_of-base_uri root base representation {t} h =
      let (id, _, h1) = >>=-some (attribute names.id representation) _ h in
      let (bandwidth, _, h2) = >>=-some (attribute names.bandwidth representation) _ h1 in
      let (seg_template, _, h3) =
        >>=-some (lib.get_child names.segment_template representation) _ h2 in
      let (timescale_text, _, h4) = >>=-some (attribute names.timescale seg_template) _ h3 in
      let (timescale, _, h5) = >>=-some (parse_u32 timescale_text) _ h4 in
      let (duration_text, _, h6) = >>=-some (attribute names.duration seg_template) _ h5 in
      let (duration, _, h7) = >>=-some (parse_u32 duration_text) _ h6 in
      let (init_template, _, h8) = >>=-some (attribute names.initialization seg_template) _ h7 in
      let (init_pattern, _, h9) = >>=-some (resolve_template lib init_template id bandwidth) _ h8 in
      let (media_template, _, h10) = >>=-some (attribute names.media seg_template) _ h9 in
      let (media_pattern, _, h11) =
        >>=-some (resolve_template lib media_template id bandwidth) _ h10 in
      inner h11
    where
      inner : {u : TranscodeTarget U X} → some u ≡ some t → t.base_uri ≡ u.base_uri
      inner x = cc

  prepare_representation-AllAbsolute :
      (root base : U) (representation : Element)
      → IsAbsolute lib root
      → IsAbsolute lib base
      → AllAbsolute lib (prepare_representation lib root base representation).1
  unfolding prepare_representation
  prepare_representation-AllAbsolute root base representation abs h =
      elim (Option-cases (target_of lib root base representation)) [
        | inl bad ↦ rw (bad, prepare_representation) tt
        | inr (t, good) ↦
            rw (good, prepare_representation)
              (
                subst (IsAbsolute lib) (sym (target_of-base_uri root base representation good))
                    (base_or-IsAbsolute root representation base abs h),
                tt,
              )
      ]

  prepare_adaptation_set-AllAbsolute :
      (root base : U) (adaptation_set : Element)
      → IsAbsolute lib root
      → IsAbsolute lib base
      → AllAbsolute lib (prepare_adaptation_set lib root base adaptation_set).1
  unfolding prepare_adaptation_set
  prepare_adaptation_set-AllAbsolute root base adaptation_set abs h =
      elim (Bool-cases (is_video lib adaptation_set)) [
        | inl hit ↦ rw hit (
            over_children-AllAbsolute names.representation _ adaptation_set (λ child.
              prepare_representation-AllAbsolute root (base_or lib root adaptation_set base) child
                abs (base_or-IsAbsolute root adaptation_set base abs h)))
        | inr miss ↦ rw miss tt
      ]

  prepare_period-AllAbsolute :
      (root base : U) (period : Element)
      → IsAbsolute lib root
      → IsAbsolute lib base
      → AllAbsolute lib (prepare_period lib root base period).1
  unfolding prepare_period
  prepare_period-AllAbsolute root base period abs h =
      over_children-AllAbsolute names.adaptation_set _ period (λ child.
        prepare_adaptation_set-AllAbsolute root (base_or lib root period base) child abs
          (base_or-IsAbsolute root period base abs h))

  -- Where the root and the first base URI have a scheme and an authority, so has the base URI of
  -- every target that is found in a manifest, whatever base URIs the manifest itself gives, full,
  -- relative or neither, on any of its levels.
  pub prepare_dash_representations-AllAbsolute :
      (mpd : Element) (root base : U)
      → IsAbsolute lib root
      → IsAbsolute lib base
      → AllAbsolute lib (prepare_dash_representations lib mpd root base).1
  unfolding prepare_dash_representations
  prepare_dash_representations-AllAbsolute mpd root base abs h =
      over_children-AllAbsolute names.period _ mpd (λ child.
        prepare_period-AllAbsolute root (base_or lib root mpd base) child abs
          (base_or-IsAbsolute root mpd base abs h))
