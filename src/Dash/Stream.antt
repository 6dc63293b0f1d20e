-- ===== src/Dash/Stream.antt =====
-- Where the initialization segments come from that the media segments are transcoded with.
use pvn_project.Base.{
  ℕ, ◌≡◌, ◌⊎◌, Bool, true, List, [], ◌∷◌, Option, none, some, Eq, Outcome, done, and_then,
}
use pvn_project.Http.{Http}
use pvn_project.Mp4.{Kinds, transcode_segment}
use pvn_project.Mp4.Stbl.{Atoms, replace_stbl_atom}
use pvn_project.Dash.{Uri, uri_prefixes}
use pvn_project.Dash.Text.{parse_u32}
use pvn_project.Dash.Xml.{TranscodeTarget}
use pvn_project.Dash.Segments.{
  Response, Reply, Media, Patterns, read_response, untouched, rebuild, transcode_segments,
}

-- Some call of a history is as told.
unfoldable pub Some : {A : Type 0} → (A → Type 0) → List A → Type 0
Some P [] = ⊥
Some P (c ∷ cs) = P c ⊎ Some P cs

module _ {U X H K V Sc Ho Vi St T M : Type 0} ⦃s : Eq Sc⦄ ⦃h : Eq Ho⦄ (http : Http H K V)
    (media : Media K V) (view : U → Uri Sc Ho) (patterns : Patterns X) (atoms : Atoms Vi St T M)
    (kinds : Kinds) (run : ℕ → ℕ → List ℕ → Option (Bool × List ℕ)) (vp9_stbl : List ℕ) where
  -- The targets behind a history of resources and their responses, the latest of them first.
  unfoldable pub targets_after :
      List (U × Response H) → List (TranscodeTarget U X) → List (TranscodeTarget U X)
  targets_after [] targets = targets
  targets_after ((uri, response) ∷ earlier) targets =
      (transcode_segments http media view patterns atoms kinds run vp9_stbl
        (targets_after earlier targets) uri response).0

  -- The response had the bytes as its body, its resource was below the target's base URI and matched
  -- its pattern of initialization segments, and its Stbl atom could be replaced.
  abbrev pub Gave : TranscodeTarget U X → List ℕ → U × Response H → Type 0
  Gave t body (uri, response) =
      (resource : List ℕ) × (parts : H) × (bytes : List ℕ) × (uri_prefixes (view t.base_uri)
          (view uri)
        ≡ some resource)
      × (patterns.is_match t.init_pattern resource ≡ true)
      × (read_response http media response ≡ done (parts, body))
      × (replace_stbl_atom atoms kinds body vp9_stbl t.timescale ≡ done bytes)

  -- What a target keeps, if it keeps a segment, is the body of some response of the history.
  abbrev pub HasOrigin : List (U × Response H) → TranscodeTarget U X → Type 0
  HasOrigin history t =
      (t.original_init_segment ≡ none)
      ⊎ ((body : List ℕ) × (t.original_init_segment ≡ some body) × Some (Gave t body) history)

  -- What a target replies to a resource below its base URI: to one that matches its pattern of
  -- initialization segments, the body with the Stbl atom replaced; to one that its media pattern
  -- takes, what the helper process makes of it behind the body of some response of the history that
  -- the target took, with the target's timescale and duration and the number in the name, or 1.
  abbrev pub Serves :
      List (U × Response H) → U → Response H → Outcome (Reply H) → TranscodeTarget U X → Type 0
  Serves history uri response reply t =
      (resource : List ℕ) × (uri_prefixes (view t.base_uri) (view uri) ≡ some resource)
      × (((patterns.is_match t.init_pattern resource ≡ true)
            × (reply
                ≡ and_then (read_response http media response) (λ read.
                  rebuild http media read
                    (replace_stbl_atom atoms kinds read.1 vp9_stbl t.timescale))))
          ⊎ ((body : List ℕ) × (number : List ℕ) × (patterns.captures t.media_pattern resource
                ≡ some (some number))
              × Some (Gave t body) history
              × (reply
                  ≡ and_then (read_response http media response) (λ read. rebuild http media read (
                      transcode_segment atoms.read_from kinds run body read.1 t.timescale
                        (elim (parse_u32 number) [ none ↦ 1 | some n ↦ n ]) t.duration)))))

  -- The reply to a resource: that of no target, or that of one of them.
  abbrev pub Answered :
      List (U × Response H)
      → List (TranscodeTarget U X)
      → U
      → Response H
      → Outcome (Reply H)
      → Type 0
  Answered history targets uri response reply =
      (reply ≡ done untouched) ⊎ Some (Serves history uri response reply) targets
