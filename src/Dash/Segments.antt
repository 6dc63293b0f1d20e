-- ===== src/Dash/Segments.antt =====
-- apps/video_transcoder/src/dash_transcoder.rs: the responses that the proxy looks at. The HTTP
-- library, the regular expressions, the decompressor and the helper process are parameters.
use pvn_project.Base.{
  ℕ, Bool, List, [], ◌∷◌, Option, none, some, length, if◌then◌else◌, Eq, Outcome, done, bails,
  panics, or_bail, and_then,
}
use pvn_project.Http.{Http}
use pvn_project.Mp4.{Kinds, transcode_segment, find_atom, extract_from_unchecked}
use pvn_project.Mp4.Stbl.{Stbl, Atoms, replace_stbl_atom}
use pvn_project.Dash.{Uri, uri_prefixes}
use pvn_project.Dash.Text.{parse_u32}
use pvn_project.Dash.Xml.{TranscodeTarget}

-- A response's headers, and its body, if it can be read to its end.
pub record Response (H : Type 0) : Type 0 where
  pub parts : H
  pub body : Option (List ℕ)

-- What is sent on: the response as it came, or another one.
pub data Reply (H : Type 0) : Type 0 where
  untouched : Reply H
  rebuilt : H → List ℕ → Reply H

-- The names and values of the headers that are looked at.
pub record Media (K V : Type 0) : Type 0 where
  pub transfer_encoding : K
  pub content_length : K
  pub content_type : K
  pub same_value : V → V → Bool
  pub gzip : V
  pub dash_xml : V
  pub video_mp4 : V
  pub from_length : ℕ → V
  pub decompress : List ℕ → Option (List ℕ)

-- The regular expressions: the text of the first group, if there is a match, if it is in it.
pub record Patterns (X : Type 0) : Type 0 where
  pub is_match : X → List ℕ → Bool
  pub captures : X → List ℕ → Option (Option (List ℕ))

module _ {H K V : Type 0} (http : Http H K V) (media : Media K V) where
  unfoldable pub read_response : Response H → Outcome (H × List ℕ)
  read_response response = or_bail response.body (λ body.
      let parts = http.remove media.transfer_encoding response.parts in
      elim (http.get http.content_encoding parts) [
        | none ↦ done (parts, body)
        | some encoding ↦
            if media.same_value encoding media.gzip
            then or_bail (media.decompress body) (λ decompressed. done (
              http.insert media.content_length (media.from_length (length decompressed))
                  (http.remove http.content_encoding parts),
              decompressed,
            ))
            else bails
      ])

  -- The new body with its length, or after an error the old one.
  unfoldable pub rebuild : H × List ℕ → Outcome (List ℕ) → Outcome (Reply H)
  rebuild (parts, body) (done new_body) = done (
      rebuilt (http.insert media.content_length (media.from_length (length new_body)) parts)
        new_body)
  rebuild (parts, body) bails = done (rebuilt parts body)
  rebuild (parts, body) panics = panics

-- What a target makes of a resource: its initialization segment, one of its media segments, with
-- the initialization segment and the number's text, or nothing.
pub data Role : Type 0 where
  is_init : Role
  is_media : List ℕ → List ℕ → Role
  is_other : Role

module _ {U X Sc Ho : Type 0} ⦃s : Eq Sc⦄ ⦃h : Eq Ho⦄ (view : U → Uri Sc Ho)
    (patterns : Patterns X) where
  unfoldable pub role : TranscodeTarget U X → U → Role
  role target request_uri = elim (uri_prefixes (view target.base_uri) (view request_uri)) [
    | none ↦ is_other
    | some resource ↦
        if patterns.is_match target.init_pattern resource
        then is_init
        else elim (patterns.captures target.media_pattern resource) [
          | none ↦ is_other
          | some group ↦ elim target.original_init_segment [
            | none ↦ is_other
            | some init_segment ↦ elim group [
              | none ↦ is_other
              | some number ↦ is_media init_segment number
            ]
          ]
        ]
  ]

module _ {U X H K V Vi St T M : Type 0} (http : Http H K V) (media : Media K V)
    (atoms : Atoms Vi St T M) (kinds : Kinds) where
  -- The initialization segment of a target: the original is kept where it can be rewritten.
  unfoldable pub start_target :
      List ℕ → TranscodeTarget U X → H × List ℕ → TranscodeTarget U X × Outcome (Reply H)
  start_target vp9_stbl target (parts, body) =
      let new_body = replace_stbl_atom atoms kinds body vp9_stbl target.timescale in
      (
        elim new_body [
          | done bytes ↦ record target { original_init_segment = some body }
          | bails ↦ target
          | panics ↦ target
        ],
        rebuild http media (parts, body) new_body,
      )

  unfoldable pub serve_init :
      List ℕ → TranscodeTarget U X → Response H → TranscodeTarget U X × Outcome (Reply H)
  unfolding start_target
  serve_init vp9_stbl target response = elim (read_response http media response) [
    | done read ↦ start_target vp9_stbl target read
    | bails ↦ (target, bails)
    | panics ↦ (target, panics)
  ]

  unfoldable pub serve_media :
      (ℕ → ℕ → List ℕ → Option (Bool × List ℕ))
      → TranscodeTarget U X
      → List ℕ
      → List ℕ
      → Response H
      → Outcome (Reply H)
  serve_media run target init_segment number response =
      and_then (read_response http media response) (λ read. rebuild http media read (
        transcode_segment atoms.read_from kinds run init_segment read.1 target.timescale
          (elim (parse_u32 number) [ none ↦ 1 | some n ↦ n ]) target.duration))

module _ {U X H K V Sc Ho Vi St T M : Type 0} ⦃s : Eq Sc⦄ ⦃h : Eq Ho⦄ (http : Http H K V)
    (media : Media K V) (view : U → Uri Sc Ho) (patterns : Patterns X) (atoms : Atoms Vi St T M)
    (kinds : Kinds) (run : ℕ → ℕ → List ℕ → Option (Bool × List ℕ)) (vp9_stbl : List ℕ) where
  -- The loop over the targets.
  unfoldable pub transcode_segments :
      List (TranscodeTarget U X) → U → Response H → List (TranscodeTarget U X) × Outcome (Reply H)
  unfolding role serve_init
  transcode_segments [] request_uri response = ([], done untouched)
  transcode_segments (target ∷ targets) request_uri response =
      elim (role view patterns target request_uri) [
        | is_init ↦
            let served = serve_init http media atoms kinds vp9_stbl target response in
            (served.0 ∷ targets, served.1)
        | is_media init_segment number ↦ (
          target ∷ targets,
          serve_media http media atoms kinds run target init_segment number response,
        )
        | is_other ↦
            let rest = transcode_segments targets request_uri response in (target ∷ rest.0, rest.1)
      ]

module _ {Vi St T M : Type 0} (atoms : Atoms Vi St T M) (kinds : Kinds) where
  -- The Stbl atom that `Transcoder::new` takes from the template file, and writes by `write`; no
  -- data stand for a file that cannot be read.
  unfoldable pub template_stbl : (Stbl Vi St → Option (List ℕ)) → Option (List ℕ) → Outcome (List ℕ)
  template_stbl write template = or_bail template (λ template_data.
      or_bail (find_atom atoms.read_from template_data kinds.moov) (λ moov_desc.
        and_then (extract_from_unchecked moov_desc template_data) (λ bytes.
          or_bail (atoms.read_moov moov_desc.header bytes) (λ moov. elim moov.trak [
            | [] ↦ bails
            | track ∷ tracks ↦ or_bail (write track.stbl) (λ stbl_data. done stbl_data)
          ]))))
