-- ===== src/Dash/Manifest.antt =====
-- The base URIs of the targets in a response with a manifest.
use pvn_project.Base.{
  ℕ, ◌≡◌, subst, inl, inr, Bool-cases, List, Option, none, some, Option-cases, Outcome-cases,
  append-All, string_eq,
}
use pvn_project.Http.{Http}
use pvn_project.Dash.Names.{names}
use pvn_project.Dash.Xml.{
  Nodes, nil, tag, other, name_of, Libraries, TranscodeTarget, base_or,
  prepare_dash_representations,
}
use pvn_project.Dash.Absolute.{
  IsAbsolute, LibraryLaws, AllAbsolute, base_or-IsAbsolute,
  prepare_dash_representations-AllAbsolute,
}
use pvn_project.Dash.Segments.{Response, Media, read_response}
use pvn_project.Dash.Sniff.{Markup, root_of, scan_base, prepare_last, sniff_nodes, sniff_mpd}

second : {A B : Type 0} {p q : A × B} → some p ≡ some q → p.1 ≡ q.1
second e = cc

module _ {U S A X : Type 0} (lib : Libraries U S A X) (laws : LibraryLaws lib) where
  scan_base-IsAbsolute :
      (root : U) (nodes : Nodes) (base : U)
      → IsAbsolute lib root
      → IsAbsolute lib base
      → IsAbsolute lib (scan_base lib root base nodes)
  unfolding scan_base
  scan_base-IsAbsolute root nil base abs h = h
  scan_base-IsAbsolute root (other nodes) base abs h = scan_base-IsAbsolute root nodes base abs h
  scan_base-IsAbsolute root (tag ele nodes) base abs h =
      elim (Bool-cases (string_eq (name_of ele) names.base_url)) [
        | inr miss ↦ rw (miss, scan_base) (scan_base-IsAbsolute root nodes base abs h)
        | inl hit ↦
            rw (hit, scan_base)
              (scan_base-IsAbsolute root nodes (base_or lib root ele base) abs
                (base_or-IsAbsolute lib laws root ele base abs h))
      ]

  prepare_last-AllAbsolute :
      (root base : U) (nodes : Nodes) {rest : Nodes} {targets : List (TranscodeTarget U X)}
      → IsAbsolute lib root
      → IsAbsolute lib base
      → prepare_last lib root base nodes ≡ some (rest, targets)
      → AllAbsolute lib targets
  unfolding prepare_last
  prepare_last-AllAbsolute root base nil abs h e = cc
  prepare_last-AllAbsolute root base (other nodes) {rest} {targets} abs h e =
      elim (Option-cases (prepare_last lib root base nodes)) [
        | inl missing ↦
            let made : ◌≡◌ {A = Option (Nodes × List (TranscodeTarget U X))} none
                (some (rest, targets)) =
              rw (missing, prepare_last) at e in
            cc
        | inr ((rest', targets'), got) ↦
            let made : some (other rest', targets') ≡ some (rest, targets) =
              rw (got, prepare_last) at e in
            subst (AllAbsolute lib) (second made)
              (prepare_last-AllAbsolute root base nodes abs h got)
      ]
  prepare_last-AllAbsolute root base (tag ele nodes) {rest} {targets} abs h e =
      elim (Option-cases (prepare_last lib root base nodes)) [
        | inl missing ↦ elim (Bool-cases (string_eq (name_of ele) names.mpd)) [
          | inr miss ↦
              let made : ◌≡◌ {A = Option (Nodes × List (TranscodeTarget U X))} none
                  (some (rest, targets)) =
                rw (missing, miss, prepare_last) at e in
              cc
          | inl hit ↦
              let prepared = prepare_dash_representations lib ele root base in
              let made : some (tag prepared.0 nodes, prepared.1) ≡ some (rest, targets) =
                rw (missing, hit, prepare_last) at e in
              subst (AllAbsolute lib) (second made)
                (prepare_dash_representations-AllAbsolute lib laws ele root base abs h)
        ]
        | inr ((rest', targets'), got) ↦
            let made : some (tag ele rest', targets') ≡ some (rest, targets) =
              rw (got, prepare_last) at e in
            subst (AllAbsolute lib) (second made)
              (prepare_last-AllAbsolute root base nodes abs h got)
      ]

  module _ {H K V : Type 0} (http : Http H K V) (media : Media K V) (markup : Markup) where
    sniff_nodes-AllAbsolute :
        (targets : List (TranscodeTarget U X)) (root : U) (read : H × List ℕ) (nodes : Nodes)
        → AllAbsolute lib targets
        → IsAbsolute lib root
        → AllAbsolute lib (sniff_nodes lib http media markup targets root read nodes).0
    unfolding sniff_nodes
    sniff_nodes-AllAbsolute targets root (parts, body) nodes h abs =
        elim (Option-cases (prepare_last lib root (scan_base lib root root nodes) nodes)) [
          | inl missing ↦ rw (missing, sniff_nodes) h
          | inr ((rest, found), got) ↦
              rw (got, sniff_nodes)
                (append-All (λ (t : TranscodeTarget U X). IsAbsolute lib t.base_uri) targets found h
                  (prepare_last-AllAbsolute root _ nodes abs
                    (scan_base-IsAbsolute root nodes root abs abs) got))
        ]

    pub sniff_mpd-AllAbsolute :
        (targets : List (TranscodeTarget U X)) (uri : U) (response : Response H)
        → AllAbsolute lib targets
        → ((root : U) → root_of lib uri ≡ some root → IsAbsolute lib root)
        → AllAbsolute lib (sniff_mpd lib http media markup targets uri response).0
    unfolding sniff_mpd
    sniff_mpd-AllAbsolute targets uri response h abs =
        elim (Outcome-cases (read_response http media response)) [
          | inl (read, e) ↦ elim (Option-cases (root_of lib uri)) [
            | inl bad ↦ rw (e, bad, sniff_mpd) h
            | inr (root, good) ↦ elim (Option-cases (markup.parse_all read.1)) [
              | inl bad ↦ rw (e, good, bad, sniff_mpd) h
              | inr (nodes, parsed) ↦
                  rw (e, good, parsed, sniff_mpd)
                    (sniff_nodes-AllAbsolute targets root read nodes h (abs root good))
            ]
          ]
          | inr (inl e) ↦ rw (e, sniff_mpd) h
          | inr (inr e) ↦ rw (e, sniff_mpd) h
        ]
