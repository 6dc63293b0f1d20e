-- ===== src/Mp4/Tests.antt =====
-- The theorems on MP4 buffers at concrete inputs.
use pvn_project.Base.{
  ◌-◌, ◌%◌, ◌*◌, ◌<◌, All, u32_mod, length, ℕ, ◌+◌, ◌-◌, ◌*◌, ◌/◌, ◌%◌, ◌<◌, ◌≡◌, refl, Bool, true,
  List, [], ◌∷◌, ◌++◌, Option, none, some, arith, u32_mod,
}
use pvn_project.Mp4.{Header, Kinds, done, to_be_bytes, transcode_segment}
use pvn_project.Mp4.Search.{HeaderLaws, layout, box}
use pvn_project.Mp4.Stbl.{Codec, vp09, Stbl, Track, Moov, Atoms, replace_stbl_atom}
use pvn_project.Mp4.Replace.{sized, adapt, IsSizable, replace_stbl_atom-layout}
use pvn_project.Mp4.Time.{be_value, Fragment, fragment, transcode_segment-fragment}

-- Headers of 32-bit sizes, which count the header's own eight bytes.
abbrev write_header : ℕ → ℕ → List ℕ
unfolding to_be_bytes
write_header kind size = to_be_bytes (size + 8) ++ to_be_bytes kind

abbrev spell : ℕ → ℕ → ℕ → ℕ → ℕ
spell a b c d = a * 16777216 + b * 65536 + c * 256 + d

abbrev read_header : List ℕ → Option Header
read_header (a ∷ b ∷ c ∷ d ∷ e ∷ f ∷ g ∷ h ∷ rest) =
    some (record { kind = spell e f g h; size = some (spell a b c d - 8) })
read_header _ = none

header_laws : HeaderLaws read_header write_header
unfolding to_be_bytes
header_laws = record {
  length-header_bytes = λ kind size. refl;
  read_from-header_bytes = λ kind size rest h k. rw (spelled kind h, minus size k) refl;
}
  where
    spelled :
        (n : ℕ)
        → n < u32_mod
        → n / 16777216 % 256 * 16777216 + n / 65536 % 256 * 65536 + n / 256 % 256 * 256 + n % 256
          ≡ n
    spelled n h = omega arith

    minus :
        (n : ℕ)
        → n + 8 < u32_mod
        → (n + 8) / 16777216 % 256 * 16777216
            + (n + 8) / 65536 % 256 * 65536
            + (n + 8) / 256 % 256 * 256
            + (n + 8) % 256
            - 8
          ≡ n
    minus n h = omega arith

abbrev two_atoms : List (ℕ × List ℕ)
two_atoms = (1, 5 ∷ []) ∷ (2, 6 ∷ 7 ∷ []) ∷ (2, 8 ∷ []) ∷ []

-- Headers of one byte, of atoms without a body.
abbrev read_bare : List ℕ → Option Header
read_bare [] = none
read_bare (kind ∷ rest) = some (record { kind = kind; size = some 0 })

abbrev kinds : Kinds
kinds = record { moov = 1; moof = 2; traf = 3; tfdt = 4 }

-- Another atom stands before the Traf atom.
abbrev shape : Fragment
shape = record {
  before_moof = [];
  after_moof = 9 ∷ [];
  before_traf = (7, 1 ∷ []) ∷ [];
  after_traf = [];
  before_tfdt = [];
  after_tfdt = 8 ∷ [];
  flags = 0 ∷ 0 ∷ 0 ∷ 0 ∷ [];
  more = [];
}

abbrev zeros : List ℕ
zeros = 0 ∷ 0 ∷ 0 ∷ 0 ∷ []

abbrev helper : ℕ → ℕ → List ℕ → Option (Bool × List ℕ)
helper timescale number input = some (
  true,
  box read_header write_header header_laws (1, 3 ∷ [])
      ++ fragment read_header write_header header_laws kinds shape zeros,
)

transcode_segment-fragment_example :
    (time : List ℕ) × (length time ≡ 4)
    × All (λ b. b < 256) time
    × (be_value 0 time ≡ (3 - 1) * 1000 % u32_mod)
    × (transcode_segment read_header kinds helper [] [] 90 3 1000
        ≡ done (fragment read_header write_header header_laws kinds shape time))
unfolding write_header
transcode_segment-fragment_example =
    transcode_segment-fragment read_header write_header header_laws kinds helper [] [] 90 3 1000 []
      (3 ∷ []) shape zeros refl (tt, tt, (omega arith, omega arith))
      (record {
        moof_first = (tt, tt, (omega arith, omega arith));
        traf_first = (
          ((omega arith, omega arith), tt),
          ((λ e. omega arith), tt),
          (omega arith, omega arith),
        );
        tfdt_first = (tt, tt, (omega arith, omega arith));
        flags_size = refl;
        time_size = refl;
      })
      (omega arith) (omega arith)

-- A library whose tracks are written as their timescales and sizes.
abbrev template : Stbl ℕ ℕ
template = record { codecs = vp09 (record { width = 1; height = 1; others = 0 }) ∷ []; others = 7 }

abbrev file_moov : Moov ℕ ℕ ℕ ℕ
file_moov = record {
  trak =
      record {
        timescale = 5;
        width = 40;
        height = 30;
        stbl = record { codecs = []; others = 0 };
        others = 0;
      }
      ∷ [];
  others = 0;
}

abbrev codec_sizes : List (Codec ℕ) → List ℕ
codec_sizes [] = []
codec_sizes (vp09 visual ∷ codecs) = visual.width ∷ visual.height ∷ codec_sizes codecs
codec_sizes (_ ∷ codecs) = codec_sizes codecs

abbrev tracks_bytes : List (Track ℕ ℕ ℕ) → List ℕ
tracks_bytes [] = []
tracks_bytes (track ∷ tracks) =
    track.timescale ∷ (codec_sizes track.stbl.codecs ++ tracks_bytes tracks)

abbrev library : Atoms ℕ ℕ ℕ ℕ
library = record {
  read_from = read_header;
  read_moov = λ header body. some file_moov;
  read_stbl = λ bytes. some template;
  write_moov = λ moov. some (tracks_bytes moov.trak);
}

replace_stbl_atom-layout_example :
    replace_stbl_atom library kinds
      (layout read_header write_header header_laws ((9, 4 ∷ []) ∷ [])
        ++ (box read_header write_header header_laws (1, 6 ∷ 6 ∷ []) ++ (8 ∷ [])))
      []
      90
    ≡ done (
        layout read_header write_header header_laws ((9, 4 ∷ []) ∷ [])
        ++ ((90 ∷ 40 ∷ 30 ∷ []) ++ (8 ∷ [])))
unfolding sized adapt IsSizable
replace_stbl_atom-layout_example =
    replace_stbl_atom-layout library write_header header_laws kinds ((9, 4 ∷ []) ∷ []) (6 ∷ 6 ∷ [])
      (8 ∷ []) [] (90 ∷ 40 ∷ 30 ∷ []) 90 file_moov template
      (((omega arith, omega arith), tt), ((λ e. omega arith), tt), (omega arith, omega arith)) refl
      refl ((λ e. cc), tt) refl
