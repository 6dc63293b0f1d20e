-- ===== src/Dash/Prefix.antt =====
-- When a URI is matched, and what is left of its path.
use pvn_project.Base.{
  starts_with, ℕ, ◌≡◌, refl, ap, ap₂, ◌∙◌, ◌⊎◌, inl, inr, ◌↔◌, Bool, true, false, Bool-cases,
  ==_iff, ◌==◌, List, [], ◌∷◌, ◌++◌, Option, none, some, length, drop, drop-append, replicate, suc,
  Eq, if◌then◌else◌,
}
use pvn_project.Dash.{Uri, part_matches, slash, trim_start, trim_end, trim_matches, uri_prefixes}

-- Both have the part, and it differs.
abbrev pub Differs : {A : Type 0} → Option A → Option A → Type 0
Differs {A} test prefix = (t : A) × (p : A) × (test ≡ some t) × (prefix ≡ some p) × (t ≡ p → ⊥)

part_matches_cases :
    {A : Type 0} (same : A → A → Bool) (iff : (a b : A) → (same a b ≡ true) ↔ (a ≡ b))
    (test prefix : Option A)
    → ((part_matches same test prefix ≡ true) × (Differs test prefix → ⊥))
      ⊎ ((part_matches same test prefix ≡ false) × Differs test prefix)
unfolding part_matches
part_matches_cases same iff test none = inl (refl, λ (t, p, e, k, d). cc k)
part_matches_cases same iff none (some p) = inl (refl, λ (t, q, e, k, d). cc e)
part_matches_cases {A = A} same iff (some t) (some p) = elim (Bool-cases (same t p)) [
  | inl hit ↦ inl (hit, λ (u, q, e, k, d). d (agree u q e k ((iff t p).0 hit)))
  | inr miss ↦ inr (miss, (t, p, refl, refl, λ e. cc (miss, (iff t p).1 e)))
]
  where
    agree : (u q : A) → some t ≡ some u → some p ≡ some q → t ≡ p → u ≡ q
    agree u q e k same = cc

starts_with_cases :
    (test prefix : List ℕ)
    → ((starts_with test prefix ≡ true) × (rest : List ℕ) × (test ≡ prefix ++ rest))
      ⊎ ((starts_with test prefix ≡ false) × ((rest : List ℕ) → test ≡ prefix ++ rest → ⊥))
unfolding starts_with
starts_with_cases test [] = inl (refl, test, refl)
starts_with_cases [] (p ∷ ps) = inr (refl, λ rest e. cc)
starts_with_cases (t ∷ ts) (p ∷ ps) = elim (Bool-cases (t == p)) [
  | inl same ↦ elim (starts_with_cases ts ps) [
    | inl (hit, rest, e) ↦ inl (rw (same, hit) refl, rest, ap₂ ◌∷◌ ((==_iff t p).0 same) e)
    | inr (miss, never) ↦ inr (rw (same, miss) refl, λ rest e. never rest (tails rest e))
  ]
  | inr other ↦ inr (rw other refl, λ rest e. cc (other, (==_iff t p).1 (heads rest e)))
]
  where
    tails : (rest : List ℕ) → t ∷ ts ≡ p ∷ ps ++ rest → ts ≡ ps ++ rest
    tails rest e = cc

    heads : (rest : List ℕ) → t ∷ ts ≡ p ∷ ps ++ rest → t ≡ p
    heads rest e = cc

trim_start_lem : (cs : List ℕ) → (n : ℕ) × (cs ≡ replicate n slash ++ trim_start cs)
unfolding trim_start
trim_start_lem [] = (0, refl)
trim_start_lem (c ∷ cs) = elim (Bool-cases (c == slash)) [
  | inl hit ↦ let (n, e) = trim_start_lem cs in rw hit (suc n, ap₂ ◌∷◌ ((==_iff c slash).0 hit) e)
  | inr miss ↦ rw miss (0, refl)
]

trim_end_lem : (cs : List ℕ) → (n : ℕ) × (cs ≡ trim_end cs ++ replicate n slash)
unfolding trim_end
trim_end_lem [] = (0, refl)
trim_end_lem (c ∷ cs) =
    let (n, e) = trim_end_lem cs in let (m, k) = step n (trim_end cs) in (m, ap (λ r. c ∷ r) e ∙ k)
  where
    step :
        (n : ℕ) (r : List ℕ)
        → (m : ℕ) × (c ∷ (r ++ replicate n slash)
            ≡ (elim r [ [] ↦ if c == slash then [] else c ∷ [] | d ∷ ds ↦ c ∷ d ∷ ds ])
              ++ replicate m slash)
    step n [] = elim (Bool-cases (c == slash)) [
      | inl hit ↦ rw hit (suc n, ap (λ d. d ∷ replicate n slash) ((==_iff c slash).0 hit))
      | inr miss ↦ rw miss (n, refl)
    ]
    step n (d ∷ ds) = (n, refl)

trim_matches_lem :
    (cs : List ℕ)
    → (m : ℕ) × (n : ℕ) × (cs ≡ replicate m slash ++ (trim_matches cs ++ replicate n slash))
unfolding trim_matches
trim_matches_lem cs =
    let (m, e) = trim_start_lem cs in
    let (n, k) = trim_end_lem (trim_start cs) in (m, n, e ∙ ap (λ r. replicate m slash ++ r) k)

module _ {S H : Type 0} ⦃s : Eq S⦄ ⦃h : Eq H⦄ where
  -- The two URIs differ in no part that both have, and the path of `test` is that of `prefix`, any
  -- number of slashes, the suffix, and any number of slashes.
  pub record Matches (prefix test : Uri S H) (suffix : List ℕ) : Type 0 where
    pub same_scheme : Differs test.scheme prefix.scheme → ⊥
    pub same_host : Differs test.host prefix.host → ⊥
    pub same_port : Differs test.port prefix.port → ⊥
    pub leading : ℕ
    pub trailing : ℕ
    pub same_path :
        test.path ≡ prefix.path ++ (replicate leading slash ++ (suffix ++ replicate trailing slash))

  -- Either `uri_prefixes` finds a suffix, no part that both URIs have differs, and the path of
  -- `test` is that of `prefix` with the suffix behind it, up to slashes around the suffix; or it
  -- finds none, and the schemes, the hosts or the ports differ, or the one path does not start
  -- with the other.
  pub uri_prefixes_lem :
      (prefix test : Uri S H)
      → ((suffix : List ℕ) × (uri_prefixes prefix test ≡ some suffix) × Matches prefix test suffix)
        ⊎ ((uri_prefixes prefix test ≡ none)
            × (Differs test.scheme prefix.scheme
                ⊎ Differs test.host prefix.host
                ⊎ Differs test.port prefix.port
                ⊎ ((rest : List ℕ) → test.path ≡ prefix.path ++ rest → ⊥)))
  unfolding uri_prefixes
  uri_prefixes_lem prefix test =
      elim (part_matches_cases s.beq s.beq_iff test.scheme prefix.scheme) [
        | inr (a, d) ↦ inr (rw a refl, inl d)
        | inl (a, x) ↦ elim (part_matches_cases h.beq h.beq_iff test.host prefix.host) [
          | inr (b, d) ↦ inr (rw (a, b) refl, inr (inl d))
          | inl (b, y) ↦ elim (part_matches_cases ◌==◌ ==_iff test.port prefix.port) [
            | inr (c, d) ↦ inr (rw (a, b, c) refl, inr (inr (inl d)))
            | inl (c, z) ↦ elim (starts_with_cases test.path prefix.path) [
              | inr (p, never) ↦ inr (rw (a, b, c, p) refl, inr (inr (inr never)))
              | inl (p, rest, e) ↦
                  let (m, n, k) = trim_matches_lem rest in
                  inl (
                    trim_matches rest,
                    rw (a, b, c, p) (ap (λ r. some (trim_matches r)) (left rest e)),
                    record {
                      same_scheme = x;
                      same_host = y;
                      same_port = z;
                      leading = m;
                      trailing = n;
                      same_path = e ∙ ap (λ r. prefix.path ++ r) k;
                    },
                  )
            ]
          ]
        ]
      ]
    where
      left :
          (rest : List ℕ)
          → test.path ≡ prefix.path ++ rest
          → drop (length prefix.path) test.path ≡ rest
      left rest e = rw e (drop-append prefix.path rest)
