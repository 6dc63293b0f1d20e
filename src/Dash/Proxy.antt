-- ===== src/Dash/Proxy.antt =====
-- apps/video_transcoder/src/main.rs: a request to the proxy. The HTTP client is a parameter; a
-- tunnel is named and not run.
use pvn_project.Base.{
  ℕ, Bool, List, [], ◌∷◌, Option, none, some, if◌then◌else◌, Eq, Outcome, done, bails, panics,
}
use pvn_project.Http.{Http}
use pvn_project.Mp4.{Kinds}
use pvn_project.Mp4.Stbl.{Atoms}
use pvn_project.Dash.{Uri}
use pvn_project.Dash.Xml.{Libraries, TranscodeTarget}
use pvn_project.Dash.Segments.{Response, Reply, Media, Patterns}
use pvn_project.Dash.Sniff.{Markup, process_response}

pub record Request (U H : Type 0) : Type 0 where
  pub is_connect : Bool
  pub uri : U
  pub headers : H

-- What a request is answered with: a tunnel to an address, a refusal, the upstream response as it
-- came or as it was rebuilt, or the error that it could not be had.
pub data Answer (A H : Type 0) : Type 0 where
  tunnels : A → Answer A H
  bad_request : Answer A H
  answers : Response H → Reply H → Answer A H
  gateway_timeout : Answer A H

-- The header that is taken out of each request, and the encoding that is asked for.
pub record Asked (K V : Type 0) : Type 0 where
  pub range : K
  pub gzip : V

module _ {K V H U : Type 0} (http : Http H K V) (asked : Asked K V) where
  unfoldable pub upstream_headers : Request U H → H
  upstream_headers req =
      http.insert http.accept_encoding asked.gzip (http.remove asked.range req.headers)

module _ {U S A X H K V Sc Ho Vi St T M : Type 0} ⦃s : Eq Sc⦄ ⦃h : Eq Ho⦄ (lib : Libraries U S A X)
    (http : Http H K V) (media : Media K V) (markup : Markup) (view : U → Uri Sc Ho)
    (patterns : Patterns X) (atoms : Atoms Vi St T M) (kinds : Kinds)
    (run : ℕ → ℕ → List ℕ → Option (Bool × List ℕ)) (vp9_stbl : List ℕ) (asked : Asked K V)
    (client : U → H → Option (Response H)) where
  unfoldable pub proxy :
      List (TranscodeTarget U X) → Request U H → List (TranscodeTarget U X) × Outcome (Answer A H)
  unfolding upstream_headers
  proxy targets req =
      if req.is_connect
      then elim (lib.authority req.uri) [
        | none ↦ (targets, done bad_request)
        | some addr ↦ (targets, done (tunnels addr))
      ]
      else elim (client req.uri (upstream_headers http asked req)) [
        | none ↦ (targets, done gateway_timeout)
        | some response ↦
            let processed =
              process_response lib http media markup view patterns atoms kinds run vp9_stbl targets
                req.uri response in
            (
              processed.0,
              elim processed.1 [
                | done reply ↦ done (answers response reply)
                | bails ↦ done gateway_timeout
                | panics ↦ panics
              ],
            )
      ]

  -- The requests one after another.
  unfoldable pub proxy_all :
      List (TranscodeTarget U X) → List (Request U H) → List (TranscodeTarget U X)
  unfolding proxy
  proxy_all targets [] = targets
  proxy_all targets (req ∷ reqs) = proxy_all (proxy targets req).0 reqs
