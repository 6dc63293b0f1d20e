-- ===== src/Parent/Requests.antt =====
-- The requests that the client writes are those that the parent resolves.
use pvn_project.Base.{
  ℕ, zero, suc, ◌≤◌, ◌<◌, ◌≡◌, refl, sym, ap, Bool, List, [], ◌∷◌, ◌++◌, append_assoc, append-nil,
  map, Option, none, some, Option-cases, Bool-cases, ◌≢◌, ◌⊎◌, inl, inr, true, false, string_eq,
  string_eq_iff, length, length-append, All, arith, u32_mod,
}
use pvn_project.Wire.{Request, to_le_bytes}
use pvn_project.Wire.RoundTrip.{
  frame, serialize_to-frame, extract_from-frame, extract_from_short, Travels, serialize_all,
}
use pvn_project.Parent.Serve.{
  Resolution, recursive, direct, navigate, is_navigation, resolution, read_loop, read_requests,
}

module _ {U H : Type 0} (fetch_mode : H → Option (List ℕ)) (encode : Request U H → Option (List ℕ))
    (decode : List ℕ → Option (Request U H × ℕ)) (always_recursive : Bool) where
  -- What the parent makes of one request.
  abbrev given : Request U H → Resolution × Request U H
  given req = (resolution fetch_mode always_recursive req, req)

  read_loop-nothing :
      (fuel : ℕ) → 0 < fuel → read_loop fetch_mode decode always_recursive fuel [] ≡ []
  unfolding read_loop
  read_loop-nothing zero h = absurd (omega arith)
  read_loop-nothing (suc fuel) h =
      rw (extract_from_short encode decode [] (omega arith), read_loop) refl

  length-frame : (bytes : List ℕ) → 4 ≤ length (frame bytes)
  unfolding frame to_le_bytes
  length-frame bytes = omega arith

  -- The bytes are read as the requests, on fuel for more rounds than there are requests.
  abbrev Reads : List ℕ → List (Request U H) → Type 0
  Reads written reqs =
      (fuel : ℕ)
      → length reqs < fuel
      → read_loop fetch_mode decode always_recursive fuel written ≡ map given reqs

  read_loop-frame :
      (q : Request U H) (bytes : List ℕ) (used : ℕ) (written : List ℕ) (reqs : List (Request U H))
      → decode bytes ≡ some (q, used)
      → length bytes < u32_mod
      → Reads written reqs
      → Reads (frame bytes ++ written) (q ∷ reqs)
  unfolding read_loop
  read_loop-frame q bytes used written reqs d h reads zero enough = absurd (omega arith)
  read_loop-frame q bytes used written reqs d h reads (suc fuel) enough =
      rw (extract_from-frame encode decode q bytes written used h d, read_loop)
        (ap (◌∷◌ (given q)) (reads fuel (omega arith)))

  read_loop-serialize_all :
      (reqs : List (Request U H)) (writer : List ℕ)
      → All (Travels encode decode) reqs
      → (written : List ℕ) × (serialize_all encode decode reqs writer ≡ some (writer ++ written))
        × (length reqs ≤ length written)
        × Reads written reqs
  unfolding serialize_all
  read_loop-serialize_all [] writer t =
      ([], ap some (sym (append-nil writer)), omega arith, read_loop-nothing)
  read_loop-serialize_all (q ∷ reqs) writer t =
      let (bytes, used, e, d, h) = t.0 in
      let (written, w, size, reads) = read_loop-serialize_all reqs (writer ++ frame bytes) t.1 in
      (
        frame bytes ++ written,
        rw (serialize_to-frame encode q bytes writer e h, w)
            (ap some (append_assoc writer (frame bytes) written)),
        omega (arith, size, length-append (frame bytes) written, length-frame bytes),
        read_loop-frame q bytes used written reqs d h reads,
      )

  -- A request is resolved in a browser where all are, or where it is a navigation or says nothing
  -- of it; else it is fetched directly.
  abbrev pub Resolves : Request U H → Resolution × Request U H → Type 0
  Resolves req r =
      (r.1 ≡ req)
      × (((r.0 ≡ recursive)
            × ((always_recursive ≡ true)
                ⊎ (fetch_mode req.headers ≡ none)
                ⊎ (fetch_mode req.headers ≡ some navigate)))
          ⊎ ((r.0 ≡ direct)
              × (always_recursive ≡ false)
              × (mode : List ℕ) × (fetch_mode req.headers ≡ some mode)
              × (mode ≢ navigate)))

  -- The requests are resolved one by one.
  unfoldable pub Each : List (Request U H) → List (Resolution × Request U H) → Type 0
  Each [] [] = Unit
  Each [] (r ∷ rs) = ⊥
  Each (q ∷ qs) [] = ⊥
  Each (q ∷ qs) (r ∷ rs) = Resolves q r × Each qs rs

  given-Resolves : (req : Request U H) → Resolves req (given req)
  unfolding resolution is_navigation
  given-Resolves req = elim (Bool-cases always_recursive) [
    | inl always ↦ rw (always, resolution) (refl, inl (refl, inl refl))
    | inr fetches ↦
        rw (fetches, resolution)
          (elim (Option-cases (fetch_mode req.headers)) [
            | inl bare ↦ rw (bare, is_navigation, resolution) (refl, inl (refl, inr (inl refl)))
            | inr (mode, has) ↦
                rw (has, is_navigation, resolution)
                  (elim (Bool-cases (string_eq mode navigate)) [
                    | inl hit ↦ rw hit (
                      refl,
                      inl (refl, inr (inr (ap some ((string_eq_iff mode navigate).0 hit)))),
                    )
                    | inr miss ↦ rw miss (refl, inr (refl, refl, mode, refl, differs mode miss))
                  ])
          ])
  ]
    where
      differs : (mode : List ℕ) → string_eq mode navigate ≡ false → mode ≢ navigate
      differs mode miss e = cc (miss, (string_eq_iff mode navigate).1 e)

  given-Each : (reqs : List (Request U H)) → Each reqs (map given reqs)
  unfolding Each
  given-Each [] = tt
  given-Each (q ∷ qs) = (given-Resolves q, given-Each qs)

  -- Requests with encodings that are decoded to them and are shorter than 2^32 bytes, which the
  -- client writes one after the other, are given by the parent's loop, in their order and none
  -- twice; then the loop ends. Where the parent resolves all recursively, each is; else those whose
  -- fetch mode is `navigate` or not given are, and the others are fetched directly.
  pub read_requests-serialize_all :
      (reqs : List (Request U H)) (writer : List ℕ)
      → All (Travels encode decode) reqs
      → (written : List ℕ) × (serialize_all encode decode reqs writer ≡ some (writer ++ written))
        × Each reqs (read_requests fetch_mode decode always_recursive written)
  unfolding read_requests
  read_requests-serialize_all reqs writer t =
      let (written, w, size, reads) = read_loop-serialize_all reqs writer t in
      (written, w, rw (reads (suc (length written)) (omega arith)) (given-Each reqs))
