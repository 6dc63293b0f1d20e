-- ===== src/Dash/Xml.antt =====
-- apps/video_transcoder/src/dash_transcoder.rs: the manifest of a DASH stream as an XML tree, the
-- base URIs in it, and the representations whose segments are to be transcoded. The URI, XML and
-- regular expression libraries are parameters.
use pvn_project.Base.{
  ℕ, Bool, false, ◌&&◌, List, [], ◌∷◌, ◌++◌, Option, none, some, ◌>>=◌, if◌then◌else◌, lookup,
  insert, string_eq, string_eq_instance,
}
use pvn_project.Dash.Names.{names, vars}
use pvn_project.Dash.Text.{replace, parse_u32}

-- A node that is not an element is not looked at.
mutual
  pub data Element : Type 0 where
    element : List ℕ → List (List ℕ × List ℕ) → Nodes → Element

  pub data Nodes : Type 0 where
    nil : Nodes
    tag : Element → Nodes → Nodes
    other : Nodes → Nodes

abbrev pub name_of : Element → List ℕ
name_of (element name attributes children) = name

-- `attributes.get`
abbrev pub attribute : List ℕ → Element → Option (List ℕ)
attribute key (element name attributes children) = lookup key attributes

-- `attributes.insert`
abbrev pub set_attribute : List ℕ → List ℕ → Element → Element
set_attribute key value (element name attributes children) =
    element name (insert key value attributes) children

-- The libraries: `from_parts` puts a scheme and an authority into the parts of a URI.
pub record Libraries (U S A X : Type 0) : Type 0 where
  pub parse : List ℕ → Option U
  pub to_string : U → List ℕ
  pub scheme : U → Option S
  pub authority : U → Option A
  pub from_parts : U → Option S → Option A → Option U
  pub get_child : List ℕ → Element → Option Element
  pub get_text : Element → Option (List ℕ)
  pub escape : List ℕ → List ℕ
  pub regex : List ℕ → Option X

-- A representation whose segments are transcoded.
pub record TranscodeTarget (U X : Type 0) : Type 0 where
  pub init_pattern : X
  pub media_pattern : X
  pub original_init_segment : Option (List ℕ)
  pub base_uri : U
  pub timescale : ℕ
  pub duration : ℕ

module _ {U S A X : Type 0} (lib : Libraries U S A X) where
  -- The URI that a text stands for, from the root.
  unfoldable pub resolve_uri : U → List ℕ → Option U
  resolve_uri root_uri text = elim (lib.parse text) [
    | none ↦ lib.parse (lib.to_string root_uri ++ (b'/' ∷ text))
    | some uri ↦ elim (lib.authority uri) [
      | none ↦ lib.from_parts uri (lib.scheme root_uri) (lib.authority root_uri)
      | some authority ↦ elim (lib.scheme uri) [
        | none ↦ lib.from_parts uri (lib.scheme root_uri) (some authority)
        | some scheme ↦ some uri
      ]
    ]
  ]

  unfoldable pub extract_base_uri : Element → U → Option U
  unfolding resolve_uri
  extract_base_uri ele root_uri = do
    base_url ← lib.get_child names.base_url ele
    text ← lib.get_text base_url
    resolve_uri root_uri text

  -- A base URI of the element's own, else the one from outside.
  unfoldable pub base_or : U → Element → U → U
  unfolding extract_base_uri
  base_or root_uri ele base = elim (extract_base_uri ele root_uri) [
    | none ↦ base
    | some new_base_uri ↦ new_base_uri
  ]

  unfoldable pub resolve_template : List ℕ → List ℕ → List ℕ → Option X
  resolve_template template representation_id bandwidth =
      let named = lib.escape (
        replace vars.bandwidth bandwidth
          (replace vars.representation_id representation_id template)) in
      lib.regex (
        b'^'
        ∷ (replace vars.sub_number vars.digits
              (replace vars.time vars.digits (replace vars.number vars.digits_group named))
            ++ (b'$' ∷ [])))

  -- The loop over the children of a name: each is changed, and gives targets.
  unfoldable pub filter_children :
      List ℕ
      → (Element → Element × List (TranscodeTarget U X))
      → Nodes
      → Nodes × List (TranscodeTarget U X)
  filter_children name visit nil = (nil, [])
  filter_children name visit (other nodes) =
      let rest = filter_children name visit nodes in (other rest.0, rest.1)
  filter_children name visit (tag ele nodes) =
      let rest = filter_children name visit nodes in
      if string_eq (name_of ele) name
      then (tag (visit ele).0 rest.0, (visit ele).1 ++ rest.1)
      else (tag ele rest.0, rest.1)

  unfoldable pub over_children :
      List ℕ
      → (Element → Element × List (TranscodeTarget U X))
      → Element
      → Element × List (TranscodeTarget U X)
  unfolding filter_children
  over_children name visit (element own attributes children) =
      let rest = filter_children name visit children in (element own attributes rest.0, rest.1)

  -- The target of a representation, if it has all that is needed.
  unfoldable pub target_of : U → U → Element → Option (TranscodeTarget U X)
  unfolding base_or resolve_template
  target_of root_uri base representation = do
    id ← attribute names.id representation
    bandwidth ← attribute names.bandwidth representation
    seg_template ← lib.get_child names.segment_template representation
    timescale_text ← attribute names.timescale seg_template
    timescale ← parse_u32 timescale_text
    duration_text ← attribute names.duration seg_template
    duration ← parse_u32 duration_text
    init_template ← attribute names.initialization seg_template
    init_pattern ← resolve_template init_template id bandwidth
    media_template ← attribute names.media seg_template
    media_pattern ← resolve_template media_template id bandwidth
    some (record {
      init_pattern = init_pattern;
      media_pattern = media_pattern;
      original_init_segment = none;
      base_uri = base_or root_uri representation base;
      timescale = timescale;
      duration = duration;
    })

  unfoldable pub prepare_representation : U → U → Element → Element × List (TranscodeTarget U X)
  unfolding target_of
  prepare_representation root_uri base representation =
      elim (target_of root_uri base representation) [
        | none ↦ (representation, [])
        | some target ↦ (set_attribute names.codecs names.target_codec representation, target ∷ [])
      ]

  unfoldable pub is_video : Element → Bool
  is_video adaptation_set = elim (attribute names.content_type adaptation_set) [
    | none ↦ false
    | some content_type ↦ elim (attribute names.mime_type adaptation_set) [
      | none ↦ false
      | some mime_type ↦ string_eq content_type names.video && string_eq mime_type names.video_mp4
    ]
  ]

  unfoldable pub prepare_adaptation_set : U → U → Element → Element × List (TranscodeTarget U X)
  unfolding is_video over_children prepare_representation
  prepare_adaptation_set root_uri base adaptation_set =
      if is_video adaptation_set
      then over_children names.representation
          (prepare_representation root_uri (base_or root_uri adaptation_set base)) adaptation_set
      else (adaptation_set, [])

  unfoldable pub prepare_period : U → U → Element → Element × List (TranscodeTarget U X)
  unfolding over_children prepare_adaptation_set
  prepare_period root_uri base period =
      over_children names.adaptation_set
        (prepare_adaptation_set root_uri (base_or root_uri period base)) period

  unfoldable pub prepare_dash_representations :
      Element → U → U → Element × List (TranscodeTarget U X)
  unfolding over_children prepare_period
  prepare_dash_representations mpd root_uri initial_base_uri =
      over_children names.period (prepare_period root_uri (base_or root_uri mpd initial_base_uri))
        mpd
