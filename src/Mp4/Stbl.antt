-- ===== src/Mp4/Stbl.antt =====
-- apps/video_transcoder/src/mp4_utils.rs: the Stbl atom of a VP8 or VP9 template in place of those
-- of a file's tracks. The library's readers and writers of Moov and Stbl atoms are parameters.
use pvn_project.Base.{
  ℕ, ◌-◌, List, [], ◌∷◌, ◌++◌, Option, none, some, length, take, drop, Outcome, done, or_bail,
  and_then, leb, if◌then◌else◌, panics,
}
use pvn_project.Mp4.{Header, Kinds, AtomDescription, find_atom, extract_from_unchecked}

-- `Visual`, of which only the size is looked at.
pub record Visual (V : Type 0) : Type 0 where
  pub width : ℕ
  pub height : ℕ
  pub others : V

pub data Codec (V : Type 0) : Type 0 where
  vp08 vp09 : Visual V → Codec V
  other : Codec V

pub record Stbl (V S : Type 0) : Type 0 where
  pub codecs : List (Codec V)
  pub others : S

pub record Track (V S T : Type 0) : Type 0 where
  pub timescale : ℕ
  pub width : ℕ
  pub height : ℕ
  pub stbl : Stbl V S
  pub others : T

pub record Moov (V S T M : Type 0) : Type 0 where
  pub trak : List (Track V S T)
  pub others : M

-- The library's readers and writer.
pub record Atoms (V S T M : Type 0) : Type 0 where
  pub read_from : List ℕ → Option Header
  pub read_moov : Header → List ℕ → Option (Moov V S T M)
  pub read_stbl : List ℕ → Option (Stbl V S)
  pub write_moov : Moov V S T M → Option (List ℕ)

module _ {V : Type 0} where
  -- The loop over the codecs; another codec is an error.
  unfoldable pub resize_codecs : ℕ → ℕ → List (Codec V) → Option (List (Codec V))
  resize_codecs width height [] = some []
  resize_codecs width height (other ∷ codecs) = none
  resize_codecs width height (vp08 visual ∷ codecs) = elim (resize_codecs width height codecs) [
    | none ↦ none
    | some rest ↦ some (vp08 (record visual { width = width; height = height }) ∷ rest)
  ]
  resize_codecs width height (vp09 visual ∷ codecs) = elim (resize_codecs width height codecs) [
    | none ↦ none
    | some rest ↦ some (vp09 (record visual { width = width; height = height }) ∷ rest)
  ]

module _ {V S T : Type 0} where
  -- The loop over the tracks.
  unfoldable pub replace_tracks : Stbl V S → ℕ → List (Track V S T) → Option (List (Track V S T))
  unfolding resize_codecs
  replace_tracks stbl timescale [] = some []
  replace_tracks stbl timescale (track ∷ tracks) =
      elim (resize_codecs track.width track.height stbl.codecs) [
        | none ↦ none
        | some codecs ↦ elim (replace_tracks stbl timescale tracks) [
          | none ↦ none
          | some rest ↦ some (
              record track { timescale = timescale; stbl = record stbl { codecs = codecs } } ∷ rest)
        ]
      ]

-- The slice behind the atom panics where the file ends before.
unfoldable pub splice : List ℕ → AtomDescription → List ℕ → Outcome (List ℕ)
splice original atom written =
    if leb atom.end (length original)
    then done (take (atom.start - 8) original ++ (written ++ drop atom.end original))
    else panics

module _ {V S T M : Type 0} (lib : Atoms V S T M) (kinds : Kinds) where
  unfoldable pub replace_stbl_atom : List ℕ → List ℕ → ℕ → Outcome (List ℕ)
  unfolding replace_tracks splice
  replace_stbl_atom original_mp4 new_stbl timescale =
      or_bail (find_atom lib.read_from original_mp4 kinds.moov) (λ moov_desc.
        and_then (extract_from_unchecked moov_desc original_mp4) (λ bytes.
          or_bail (lib.read_moov moov_desc.header bytes) (λ moov.
            or_bail (lib.read_stbl new_stbl) (λ stbl.
              or_bail (replace_tracks stbl timescale moov.trak) (λ trak.
                or_bail (lib.write_moov (record moov { trak = trak }))
                  (λ written. splice original_mp4 moov_desc written))))))
