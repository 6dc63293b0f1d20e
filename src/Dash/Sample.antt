-- ===== src/Dash/Sample.antt =====
-- Libraries for tests: a URI is written with an `h` in place of its scheme and its authority.
use pvn_project.Base.{
  ℕ, ◌≡◌, Bool, true, List, [], ◌∷◌, ◌++◌, Option, none, some, Eq, ◌==◌, ==_iff, string_eq,
  string_eq_instance, if◌then◌else◌,
}
use pvn_project.Http.Sample.{Fields}
use pvn_project.Mp4.{Header, Kinds}
use pvn_project.Mp4.Stbl.{Atoms}
use pvn_project.Dash.{Uri}
use pvn_project.Dash.Names.{names}
use pvn_project.Dash.Xml.{Element, element, Nodes, nil, tag, other, name_of, attribute, Libraries}
use pvn_project.Dash.Absolute.{LibraryLaws}
use pvn_project.Dash.Segments.{Media, Patterns, Response}
use pvn_project.Dash.Sniff.{Markup}
use pvn_project.Dash.Proxy.{Asked}

instance abbrev pub nat_eq : Eq ℕ
nat_eq = record { beq = λ a b. a == b; beq_iff = ==_iff }

abbrev pub U : Type 0
U = Uri ℕ ℕ

abbrev parse : List ℕ → Option U
parse [] = none
parse (c ∷ cs) = some (
    if c == b'h'
    then record { scheme = some 1; host = some 1; port = none; path = cs }
    else record { scheme = none; host = none; port = none; path = c ∷ cs })

abbrev prefix_of : Option ℕ → Option ℕ → List ℕ
prefix_of none host = []
prefix_of (some s) none = []
prefix_of (some s) (some h) = b'h' ∷ []

abbrev child : List ℕ → Nodes → Option Element
child name nil = none
child name (other nodes) = child name nodes
child name (tag ele nodes) = if string_eq (name_of ele) name then some ele else child name nodes

abbrev children : Element → Nodes
children (element name attributes nodes) = nodes

-- The text of an element is its attribute of the empty name.
abbrev pub libraries : Libraries U ℕ ℕ (List ℕ)
libraries = record {
  parse = parse;
  to_string = λ u. prefix_of u.scheme u.host ++ u.path;
  scheme = λ u. u.scheme;
  authority = λ u. u.host;
  from_parts = λ u s a. some (record { scheme = s; host = a; port = none; path = u.path });
  get_child = λ name ele. child name (children ele);
  get_text = λ ele. attribute [] ele;
  escape = λ text. text;
  regex = λ text. some text;
}

pub library_laws : LibraryLaws libraries
library_laws = record {
  scheme-from_parts = λ u s a e. from_scheme u s a e;
  authority-from_parts = λ u s a e. from_authority u s a e;
  parse-IsAbsolute = λ root text abs e. parsed root text abs e;
}
  where
    from_scheme :
        (u : U) (s a : Option ℕ) {v : U} → libraries.from_parts u s a ≡ some v → v.scheme ≡ s
    from_scheme u s a e = cc

    from_authority :
        (u : U) (s a : Option ℕ) {v : U} → libraries.from_parts u s a ≡ some v → v.host ≡ a
    from_authority u s a e = cc

    parsed :
        (root : U) (text : List ℕ) {v : U}
        → ((s : ℕ) × (a : ℕ) × (root.scheme ≡ some s) × (root.host ≡ some a))
        → parse (libraries.to_string root ++ (b'/' ∷ text)) ≡ some v
        → (s : ℕ) × (a : ℕ) × (v.scheme ≡ some s) × (v.host ≡ some a)
    parsed root text {v} (s, a, es, ea) e =
        let made : parse ((prefix_of (some s) (some a) ++ root.path) ++ (b'/' ∷ text)) ≡ some v =
          rw (es, ea) at e in
        (1, 1, cc, cc)

-- A response's headers, in which only the type of the content is looked at.
abbrev pub content_type_name : List ℕ
content_type_name = b'c' ∷ b't' ∷ []

abbrev pub media : Media (List ℕ) (List ℕ)
media = record {
  transfer_encoding = b't' ∷ b'e' ∷ [];
  content_length = b'c' ∷ b'l' ∷ [];
  content_type = content_type_name;
  same_value = string_eq;
  gzip = b'g' ∷ [];
  dash_xml = b'x' ∷ [];
  video_mp4 = b'm' ∷ [];
  from_length = λ n. n ∷ [];
  decompress = λ bytes. none;
}

-- The first byte of a file is the kind of its only atom.
abbrev first_header : List ℕ → Option Header
first_header [] = none
first_header (c ∷ bytes) = some (record { kind = c; size = none })

abbrev pub atoms : Atoms ℕ ℕ ℕ ℕ
atoms = record {
  read_from = first_header;
  read_moov = λ header bytes. some (record { trak = []; others = 0 });
  read_stbl = λ bytes. some (record { codecs = []; others = 0 });
  write_moov = λ moov. some (5 ∷ []);
}

abbrev pub kinds : Kinds
kinds = record { moov = 1; moof = 2; traf = 3; tfdt = 4 }

-- `i` matches the initial pattern, and any other one-character resource is a number.
abbrev first_group : List ℕ → List ℕ → Option (Option (List ℕ))
first_group pattern (c ∷ []) = some (some (c ∷ []))
first_group pattern text = none

abbrev pub patterns : Patterns (List ℕ)
patterns = record { is_match = λ pattern text. string_eq text (b'i' ∷ []); captures = first_group }

abbrev pub run : ℕ → ℕ → List ℕ → Option (Bool × List ℕ)
run timescale number input = some (true, input)

abbrev pub asked : Asked (List ℕ) (List ℕ)
asked = record { range = b'r' ∷ []; gzip = b'g' ∷ [] }

-- A manifest with one representation.
abbrev manifest : Element
manifest = element names.mpd [] (
    tag
      (element names.period [] (
        tag
          (element names.adaptation_set
            ((names.content_type, names.video) ∷ (names.mime_type, names.video_mp4) ∷ [])
            (tag
              (element names.representation
                ((names.id, b'a' ∷ []) ∷ (names.bandwidth, b'9' ∷ []) ∷ [])
                (tag
                  (element names.segment_template
                    ((names.timescale, b'9' ∷ [])
                      ∷ (names.duration, b'2' ∷ [])
                      ∷ (names.initialization, b'i' ∷ [])
                      ∷ (names.media, b'm' ∷ [])
                      ∷ [])
                    nil)
                  nil))
              nil))
          nil))
      nil)

abbrev pub markup : Markup
markup = record { parse_all = λ bytes. some (tag manifest nil); write = λ ele. some (7 ∷ []) }

-- Every request is answered with a manifest.
abbrev pub client : U → Fields → Option (Response Fields)
client uri headers =
    some (record { parts = (content_type_name, b'x' ∷ []) ∷ []; body = some (1 ∷ []) })
