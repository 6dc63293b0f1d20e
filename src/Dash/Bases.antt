-- ===== src/Dash/Bases.antt =====
-- The base URIs of the targets that the proxy keeps.
use pvn_project.Base.{
  ℕ, ◌≡◌, ◌⊎◌, subst, refl, sym, inl, inr, Bool, Bool-cases, List, [], ◌∷◌, Option, some,
  Option-cases, Outcome-cases, All, Eq,
}
use pvn_project.Http.{Http}
use pvn_project.Mp4.{Kinds}
use pvn_project.Mp4.Stbl.{Atoms, replace_stbl_atom}
use pvn_project.Dash.{Uri}
use pvn_project.Dash.Xml.{Libraries, TranscodeTarget}
use pvn_project.Dash.Absolute.{IsAbsolute, LibraryLaws, AllAbsolute}
use pvn_project.Dash.Segments.{
  Response, Media, Patterns, read_response, start_target, serve_init, Role, is_init, is_media,
  is_other, role, transcode_segments,
}
use pvn_project.Dash.Sniff.{Markup, root_of, process_response}
use pvn_project.Dash.Proxy.{Request, Asked, upstream_headers, proxy, proxy_all}
use pvn_project.Dash.Manifest.{sniff_mpd-AllAbsolute}

pub Role-cases :
    (r : Role) → (r ≡ is_init) ⊎ ((i : List ℕ) × (n : List ℕ) × (r ≡ is_media i n)) ⊎ (r ≡ is_other)
Role-cases is_init = inl refl
Role-cases (is_media i n) = inr (inl (i, n, refl))
Role-cases is_other = inr (inr refl)

module _ {U S A X H K V Vi St T M : Type 0} (lib : Libraries U S A X) (http : Http H K V)
    (media : Media K V) (atoms : Atoms Vi St T M) (kinds : Kinds) (vp9_stbl : List ℕ) where
  start_target-base_uri :
      (t : TranscodeTarget U X) (read : H × List ℕ)
      → (start_target http media atoms kinds vp9_stbl t read).0.base_uri ≡ t.base_uri
  unfolding start_target
  start_target-base_uri t (parts, body) =
      elim (Outcome-cases (replace_stbl_atom atoms kinds body vp9_stbl t.timescale)) [
        | inl (bytes, e) ↦ rw (e, start_target) refl
        | inr (inl e) ↦ rw (e, start_target) refl
        | inr (inr e) ↦ rw (e, start_target) refl
      ]

  serve_init-base_uri :
      (t : TranscodeTarget U X) (response : Response H)
      → (serve_init http media atoms kinds vp9_stbl t response).0.base_uri ≡ t.base_uri
  unfolding serve_init
  serve_init-base_uri t response = elim (Outcome-cases (read_response http media response)) [
    | inl (read, e) ↦ rw (e, serve_init) (start_target-base_uri t read)
    | inr (inl e) ↦ rw (e, serve_init) refl
    | inr (inr e) ↦ rw (e, serve_init) refl
  ]

module _ {U S A X H K V Sc Ho Vi St T M : Type 0} ⦃s : Eq Sc⦄ ⦃h : Eq Ho⦄ (lib : Libraries U S A X)
    (laws : LibraryLaws lib) (http : Http H K V) (media : Media K V) (view : U → Uri Sc Ho)
    (patterns : Patterns X) (atoms : Atoms Vi St T M) (kinds : Kinds)
    (run : ℕ → ℕ → List ℕ → Option (Bool × List ℕ)) (vp9_stbl : List ℕ) where
  transcode_segments-AllAbsolute :
      (targets : List (TranscodeTarget U X)) (uri : U) (response : Response H)
      → AllAbsolute lib targets
      → AllAbsolute lib
          (transcode_segments http media view patterns atoms kinds run vp9_stbl targets uri
            response).0
  unfolding transcode_segments
  transcode_segments-AllAbsolute [] uri response k = tt
  transcode_segments-AllAbsolute (t ∷ targets) uri response k =
      elim (Role-cases (role view patterns t uri)) [
        | inl e ↦
            rw (e, transcode_segments)
              (
                subst (IsAbsolute lib)
                    (sym (serve_init-base_uri lib http media atoms kinds vp9_stbl t response)) k.0,
                k.1,
              )
        | inr (inl (init_segment, number, e)) ↦ rw (e, transcode_segments) k
        | inr (inr e) ↦
            rw (e, transcode_segments)
              (k.0, transcode_segments-AllAbsolute targets uri response k.1)
      ]

  module _ (markup : Markup) (asked : Asked K V) (client : U → H → Option (Response H)) where
    process_response-AllAbsolute :
        (targets : List (TranscodeTarget U X)) (uri : U) (response : Response H)
        → AllAbsolute lib targets
        → ((root : U) → root_of lib uri ≡ some root → IsAbsolute lib root)
        → AllAbsolute lib
            (process_response lib http media markup view patterns atoms kinds run vp9_stbl targets
              uri response).0
    unfolding process_response
    process_response-AllAbsolute targets uri response k abs =
        elim (Option-cases (http.get media.content_type response.parts)) [
          | inl bare ↦ rw (bare, process_response) k
          | inr (content_type, typed) ↦
              elim (Bool-cases (media.same_value content_type media.dash_xml)) [
                | inl manifest ↦
                    rw (typed, manifest, process_response)
                      (sniff_mpd-AllAbsolute lib laws http media markup targets uri response k abs)
                | inr else' ↦ elim (Bool-cases (media.same_value content_type media.video_mp4)) [
                  | inl segment ↦
                      rw (typed, else', segment, process_response)
                        (transcode_segments-AllAbsolute targets uri response k)
                  | inr no_segment ↦ rw (typed, else', no_segment, process_response) k
                ]
              ]
        ]

    proxy-AllAbsolute :
        (targets : List (TranscodeTarget U X)) (req : Request U H)
        → AllAbsolute lib targets
        → ((root : U) → root_of lib req.uri ≡ some root → IsAbsolute lib root)
        → AllAbsolute lib
            (proxy lib http media markup view patterns atoms kinds run vp9_stbl asked client targets
              req).0
    unfolding proxy
    proxy-AllAbsolute targets req k abs = elim (Bool-cases req.is_connect) [
      | inl connect ↦ elim (Option-cases (lib.authority req.uri)) [
        | inl bad ↦ rw (connect, bad, proxy) k
        | inr (addr, good) ↦ rw (connect, good, proxy) k
      ]
      | inr get ↦ elim (Option-cases (client req.uri (upstream_headers http asked req))) [
        | inl bad ↦ rw (get, bad, proxy) k
        | inr (response, good) ↦
            rw (get, good, proxy) (process_response-AllAbsolute targets req.uri response k abs)
      ]
    ]

    -- Whatever requests the proxy is sent and whatever it is answered, the base URI of each target
    -- that it keeps has a scheme and an authority, where those that it starts with have, and each
    -- request's URI up to its last slash, if it is a URI. So no target without a host matches
    -- another host's resources.
    pub proxy_all-AllAbsolute :
        (reqs : List (Request U H)) (targets : List (TranscodeTarget U X))
        → AllAbsolute lib targets
        → All
            (λ (req : Request U H).
              (root : U) → root_of lib req.uri ≡ some root → IsAbsolute lib root)
            reqs
        → AllAbsolute lib (
            proxy_all lib http media markup view patterns atoms kinds run vp9_stbl asked client
              targets reqs)
    unfolding proxy_all
    proxy_all-AllAbsolute [] targets k abs = k
    proxy_all-AllAbsolute (req ∷ reqs) targets k abs =
        proxy_all-AllAbsolute reqs _ (proxy-AllAbsolute targets req k abs.0) abs.1
