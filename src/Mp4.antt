-- ===== src/Mp4.antt =====
-- apps/video_transcoder/src/mp4_utils.rs: the search for atoms in an MP4 file, and the repair of
-- a transcoded segment's time. The library's reader of atom headers and the helper process are
-- parameters. What a header's size is added to wraps around as a `usize` of 64 bits does.
pub mod Search
pub mod Cut
pub mod First
pub mod Fuel
pub mod Inside
pub mod Time
pub mod Stbl
pub mod Replace
mod Tests
use pvn_project.Base.{
  Outcome, done, bails, panics, or_bail, and_then, ℕ, zero, suc, ◌+◌, ◌-◌, ◌*◌, ◌/◌, ◌%◌, Bool,
  List, [], ◌∷◌, ◌++◌, Option, none, some, ltb, leb, ◌==◌, if◌then◌else◌, length, take, drop,
  u32_mod, u32_max, wrapping_add,
}

-- `mp4_atom::Header`: the kind as the number that the four bytes of its code spell, and the size
-- of the body, which is missing where the atom reaches to the end of the file.
pub record Header : Type 0 where
  pub kind : ℕ
  pub size : Option ℕ

-- The codes that are searched for.
pub record Kinds : Type 0 where
  pub moov : ℕ
  pub moof : ℕ
  pub traf : ℕ
  pub tfdt : ℕ

pub record AtomDescription : Type 0 where
  pub header : Header
  pub start : ℕ
  pub end : ℕ

-- The slice `buffer[start..end]` of `extract_from` panics where `start` is behind `end`.
unfoldable pub extract_from : AtomDescription → List ℕ → Outcome (Option (List ℕ))
extract_from atom buffer =
    if leb atom.start (length buffer)
    then if leb atom.end (length buffer)
      then if leb atom.start atom.end
        then done (some (take (atom.end - atom.start) (drop atom.start buffer)))
        else panics
      else done none
    else done none

unfoldable pub extract_from_unchecked : AtomDescription → List ℕ → Outcome (List ℕ)
extract_from_unchecked atom buffer = elim (extract_from atom buffer) [
  | done (some bytes) ↦ done bytes
  | done none ↦ panics
  | bails ↦ bails
  | panics ↦ panics
]

abbrev pub usize_mod : ℕ
usize_mod = 18446744073709551616

-- A number as a `usize`. It is kept where it points into the buffer, which has fewer bytes than
-- 2^64, and else taken modulo 2^64.
unfoldable pub as_usize : List ℕ → ℕ → ℕ
as_usize buffer n = if leb n (length buffer) then n else n % usize_mod

-- The description of an atom whose header is at the offset.
unfoldable pub describe : List ℕ → ℕ → Header → AtomDescription
describe buffer offset header = record {
  header = header;
  start = offset + 8;
  end = elim header.size [ some size ↦ as_usize buffer (offset + 8 + size) | none ↦ length buffer ];
}

-- `read_from` stands for `Header::read_from`.
module _ (read_from : List ℕ → Option Header) where
  -- The `while` loop, on fuel.
  unfoldable pub search_atom : ℕ → List ℕ → ℕ → ℕ → Option AtomDescription
  search_atom zero buffer atom offset = none
  search_atom (suc fuel) buffer atom offset =
      if leb (length buffer) offset then none else elim (read_from (drop offset buffer)) [
        | none ↦ none
        | some header ↦
            if header.kind == atom then some (describe buffer offset header) else elim header.size [
              | none ↦ none
              | some size ↦ search_atom fuel buffer atom (as_usize buffer (offset + (size + 8)))
            ]
      ]

  -- Each round that does not wrap around goes on by eight bytes at least, so a round for each byte
  -- is fuel enough where none does. Where one does, the loop may have no end; here it finds nothing.
  unfoldable pub find_atom : List ℕ → ℕ → Option AtomDescription
  find_atom buffer atom = search_atom (length buffer) buffer atom 0

  -- The atom inside another one, with its position in the whole buffer.
  unfoldable pub find_inside : List ℕ → AtomDescription → ℕ → Outcome AtomDescription
  find_inside buffer parent atom = and_then (extract_from_unchecked parent buffer) (λ inside.
      or_bail (find_atom inside atom) (λ found. done (record found {
        start = found.start + parent.start;
        end = as_usize buffer (found.end + parent.start);
      })))

-- `u32::to_be_bytes`
unfoldable pub to_be_bytes : ℕ → List ℕ
to_be_bytes n = (n / 16777216 % 256) ∷ (n / 65536 % 256) ∷ (n / 256 % 256) ∷ (n % 256) ∷ []

-- `(segment_number - 1) * segment_durations`, with the wrap-around of a `u32`.
unfoldable pub base_media_decode_time : ℕ → ℕ → ℕ
base_media_decode_time segment_number segment_durations =
    wrapping_add segment_number u32_max * segment_durations % u32_mod

-- The copy into the buffer panics where the buffer ends before.
unfoldable pub write_time : List ℕ → AtomDescription → List ℕ → Outcome (List ℕ)
write_time buffer tfdt time =
    if leb (tfdt.start + 8) (length buffer)
    then done (take (tfdt.start + 4) buffer ++ (time ++ drop (tfdt.start + 8) buffer))
    else panics

module _ (read_from : List ℕ → Option Header) (kinds : Kinds) where
  -- What is done to the output behind its Moov atom.
  unfoldable pub set_time : List ℕ → List ℕ → Outcome (List ℕ)
  set_time transcoded time = or_bail (find_atom read_from transcoded kinds.moof) (λ moof.
      and_then (find_inside read_from transcoded moof kinds.traf) (λ traf.
        and_then (find_inside read_from transcoded traf kinds.tfdt)
          (λ tfdt. write_time transcoded tfdt time)))

  -- `drain(..moov_desc.end)` panics where the output ends before.
  unfoldable pub drop_moov : List ℕ → Outcome (List ℕ)
  drop_moov output =
      or_bail (find_atom read_from output kinds.moov)
        (λ moov. if leb moov.end (length output) then done (drop moov.end output) else panics)

  -- `run` stands for the helper process: from the timescale, the segment's number and the input,
  -- whether it succeeds and its output, or no process.
  unfoldable pub transcode_segment :
      (ℕ → ℕ → List ℕ → Option (Bool × List ℕ)) → List ℕ → List ℕ → ℕ → ℕ → ℕ → Outcome (List ℕ)
  transcode_segment run init_segment video_segment timescale segment_number segment_durations =
      or_bail (run timescale segment_number (init_segment ++ video_segment)) (λ op.
        if op.0
        then and_then (drop_moov op.1) (λ transcoded.
          set_time transcoded
            (to_be_bytes (base_media_decode_time segment_number segment_durations)))
        else bails)
