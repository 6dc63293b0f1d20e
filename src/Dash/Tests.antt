-- ===== src/Dash/Tests.antt =====
-- The match of URIs at concrete inputs.
use pvn_project.Base.{starts_with, subst, false, ℕ, ◌≡◌, ◌⊎◌, refl, List, [], ◌∷◌, ◌++◌, none, some}
use pvn_project.Dash.{Uri, trim_start, trim_end, trim_matches, uri_prefixes}
use pvn_project.Http.Sample.{Fields, sample}
use pvn_project.Dash.Xml.{TranscodeTarget}
use pvn_project.Dash.Absolute.{IsAbsolute, AllAbsolute}
use pvn_project.Dash.Segments.{Response}
use pvn_project.Dash.Sniff.{rfind, root_of}
use pvn_project.Dash.Proxy.{Request, proxy_all}
use pvn_project.Dash.Bases.{proxy_all-AllAbsolute}
use pvn_project.Dash.Sample.{
  nat_eq, U, libraries, library_laws, media, atoms, kinds, patterns, run, asked, markup, client,
}
use pvn_project.Dash.Prefix.{Differs, Matches, uri_prefixes_lem}

-- `/a`, and `/a/b/` on some host.
abbrev base : Uri ℕ ℕ
base = record { scheme = some 1; host = none; port = none; path = 47 ∷ 97 ∷ [] }

abbrev request : Uri ℕ ℕ
request = record { scheme = some 1; host = some 5; port = none; path = 47 ∷ 97 ∷ 47 ∷ 98 ∷ 47 ∷ [] }

matched : uri_prefixes base request ≡ some (98 ∷ [])
unfolding uri_prefixes starts_with trim_matches trim_end trim_start
matched = refl

-- The path `/ab` is not inside `/a`, but matches it.
abbrev sibling : Uri ℕ ℕ
sibling = record request { path = 47 ∷ 97 ∷ 98 ∷ [] }

sibling_matched : uri_prefixes base sibling ≡ some (98 ∷ [])
unfolding uri_prefixes starts_with trim_matches trim_end trim_start
sibling_matched = refl

uri_prefixes_lem_example :
    ((suffix : List ℕ) × (uri_prefixes base request ≡ some suffix) × Matches base request suffix)
    ⊎ ((uri_prefixes base request ≡ none)
        × (Differs {A = ℕ} (some 1) (some 1)
            ⊎ Differs {A = ℕ} (some 5) none
            ⊎ Differs {A = ℕ} none none
            ⊎ ((rest : List ℕ) → request.path ≡ base.path ++ rest → ⊥)))
uri_prefixes_lem_example = uri_prefixes_lem base request

-- `h/v/x`
abbrev asked_uri : U
asked_uri = record {
  scheme = some 1;
  host = some 1;
  port = none;
  path = b'/' ∷ b'v' ∷ b'/' ∷ b'x' ∷ [];
}

abbrev one_request : Request U Fields
one_request = record { is_connect = false; uri = asked_uri; headers = [] }

root_is : (root : U) → root_of libraries asked_uri ≡ some root → IsAbsolute libraries root
unfolding root_of rfind
root_is root e = subst (IsAbsolute libraries) (only e) (1, 1, refl, refl)
  where
    only : {u v : U} → some u ≡ some v → u ≡ v
    only x = cc

proxy_all-AllAbsolute_example : AllAbsolute libraries (
    proxy_all libraries sample media markup
      (λ u. u)
      patterns
      atoms
      kinds
      run
      []
      asked
      client
      []
      (one_request ∷ one_request ∷ []))
proxy_all-AllAbsolute_example =
    proxy_all-AllAbsolute libraries library_laws sample media (λ u. u) patterns atoms kinds run []
      markup asked client (one_request ∷ one_request ∷ []) [] tt (root_is, (root_is, tt))

abbrev target : TranscodeTarget U (List ℕ)
target = record {
  init_pattern = [];
  media_pattern = [];
  original_init_segment = none;
  base_uri = record asked_uri { path = b'/' ∷ b'v' ∷ [] };
  timescale = 90;
  duration = 180;
}

-- Another host's target.
abbrev elsewhere : TranscodeTarget U (List ℕ)
elsewhere = record target { base_uri = record asked_uri { host = some 2 } }

abbrev init_uri : U
init_uri = record asked_uri { path = b'/' ∷ b'v' ∷ b'/' ∷ b'i' ∷ [] }

abbrev segment_uri : U
segment_uri = record asked_uri { path = b'/' ∷ b'v' ∷ b'/' ∷ b'3' ∷ [] }

abbrev response_of : List ℕ → Response Fields
response_of body = record { parts = []; body = some body }

abbrev init_body : List ℕ
init_body = 1 ∷ 0 ∷ 0 ∷ 0 ∷ 0 ∷ 0 ∷ 0 ∷ 0 ∷ 4 ∷ []
