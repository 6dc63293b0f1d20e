-- ===== src/Dash/Sniff.antt =====
-- apps/video_transcoder/src/dash_transcoder.rs: the responses with a manifest, and the choice
-- between the kinds of responses.
use pvn_project.Base.{
  ℕ, suc, Bool, List, [], ◌∷◌, ◌++◌, Option, none, some, length, take, if◌then◌else◌, string_eq, Eq,
  ◌==◌, Outcome, done, bails, panics, or_bail,
}
use pvn_project.Http.{Http}
use pvn_project.Mp4.{Kinds}
use pvn_project.Mp4.Stbl.{Atoms}
use pvn_project.Dash.{Uri}
use pvn_project.Dash.Names.{names}
use pvn_project.Dash.Xml.{
  Element, Nodes, nil, tag, other, name_of, Libraries, TranscodeTarget, base_or,
  prepare_dash_representations,
}
use pvn_project.Dash.Segments.{
  Response, Reply, untouched, rebuilt, Media, Patterns, read_response, transcode_segments,
}

-- `str::rfind` for a character.
unfoldable pub rfind : ℕ → List ℕ → Option ℕ
rfind c [] = none
rfind c (x ∷ xs) = elim (rfind c xs) [
  | some i ↦ some (suc i)
  | none ↦ if x == c then some 0 else none
]

-- The XML library's parser and writer.
pub record Markup : Type 0 where
  pub parse_all : List ℕ → Option Nodes
  pub write : Element → Option (List ℕ)

-- The elements one after another; other nodes are left out.
unfoldable pub write_all : (Element → Option (List ℕ)) → Nodes → Option (List ℕ)
write_all write nil = some []
write_all write (other nodes) = write_all write nodes
write_all write (tag ele nodes) = elim (write ele) [
  | none ↦ none
  | some text ↦ elim (write_all write nodes) [ none ↦ none | some rest ↦ some (text ++ rest) ]
]

module _ {U S A X : Type 0} (lib : Libraries U S A X) where
  -- The URI up to its last slash.
  unfoldable pub root_of : U → Option U
  unfolding rfind
  root_of request_uri =
      let text = lib.to_string request_uri in
      lib.parse (take (elim (rfind b'/' text) [ none ↦ length text | some i ↦ i ]) text)

  -- The base URI behind the loop over the nodes.
  unfoldable pub scan_base : U → U → Nodes → U
  scan_base root_uri base nil = base
  scan_base root_uri base (other nodes) = scan_base root_uri base nodes
  scan_base root_uri base (tag ele nodes) =
      let new_base =
        if string_eq (name_of ele) names.base_url then base_or lib root_uri ele base else base in
      scan_base root_uri new_base nodes

  -- The last of the elements that are a manifest is prepared where it stands.
  unfoldable pub prepare_last : U → U → Nodes → Option (Nodes × List (TranscodeTarget U X))
  prepare_last root_uri base nil = none
  prepare_last root_uri base (other nodes) = elim (prepare_last root_uri base nodes) [
    | none ↦ none
    | some (rest, targets) ↦ some (other rest, targets)
  ]
  prepare_last root_uri base (tag ele nodes) = elim (prepare_last root_uri base nodes) [
    | none ↦
        if string_eq (name_of ele) names.mpd
        then some (
          tag (prepare_dash_representations lib ele root_uri base).0 nodes,
          (prepare_dash_representations lib ele root_uri base).1,
        )
        else none
    | some (rest, targets) ↦ some (tag ele rest, targets)
  ]

  module _ {H K V : Type 0} (http : Http H K V) (media : Media K V) (markup : Markup) where
    -- What is done with the nodes: the targets are there also where a node cannot be written.
    unfoldable pub sniff_nodes :
        List (TranscodeTarget U X)
        → U
        → H × List ℕ
        → Nodes
        → List (TranscodeTarget U X) × Outcome (Reply H)
    unfolding scan_base
    sniff_nodes targets root_uri (parts, body) nodes =
        elim (prepare_last root_uri (scan_base root_uri root_uri nodes) nodes) [
          | none ↦ (targets, done (rebuilt parts body))
          | some (new_nodes, found) ↦ (
            targets ++ found,
            or_bail (write_all markup.write new_nodes) (λ new_body. done (
                rebuilt
                  (http.insert media.content_length (media.from_length (length new_body)) parts)
                  new_body)),
          )
        ]

    unfoldable pub sniff_mpd :
        List (TranscodeTarget U X) → U → Response H → List (TranscodeTarget U X) × Outcome (Reply H)
    unfolding root_of sniff_nodes
    sniff_mpd targets request_uri response = elim (read_response http media response) [
      | bails ↦ (targets, bails)
      | panics ↦ (targets, panics)
      | done read ↦ elim (root_of request_uri) [
        | none ↦ (targets, panics)
        | some root_uri ↦ elim (markup.parse_all read.1) [
          | none ↦ (targets, done (rebuilt read.0 read.1))
          | some nodes ↦ sniff_nodes targets root_uri read nodes
        ]
      ]
    ]

  module _ {H K V Sc Ho Vi St T M : Type 0} ⦃s : Eq Sc⦄ ⦃h : Eq Ho⦄ (http : Http H K V)
      (media : Media K V) (markup : Markup) (view : U → Uri Sc Ho) (patterns : Patterns X)
      (atoms : Atoms Vi St T M) (kinds : Kinds) (run : ℕ → ℕ → List ℕ → Option (Bool × List ℕ))
      (vp9_stbl : List ℕ) where
    unfoldable pub process_response :
        List (TranscodeTarget U X) → U → Response H → List (TranscodeTarget U X) × Outcome (Reply H)
    process_response targets request_uri response =
        elim (http.get media.content_type response.parts) [
          | none ↦ (targets, done untouched)
          | some content_type ↦
              if media.same_value content_type media.dash_xml
              then sniff_mpd http media markup targets request_uri response
              else if media.same_value content_type media.video_mp4
              then transcode_segments http media view patterns atoms kinds run vp9_stbl targets
                  request_uri response
              else (targets, done untouched)
        ]
