-- ===== src/Mp4/Replace.antt =====
-- What the replacement of the Stbl atom does to a file, and to its tracks.
use pvn_project.Base.{
  ℕ, ◌+◌, ◌-◌, ◌≡◌, ◌≢◌, refl, sym, ap, ◌∙◌, true, List, [], ◌∷◌, ◌++◌, append_assoc, some, leb,
  length, length-append, take, drop, take-append, drop-append, drop-drop, All, arith, map,
}
use pvn_project.Mp4.{Kinds, AtomDescription, done}
use pvn_project.Mp4.Search.{HeaderLaws, At, box, layout, find_atom-At, find_atom-header}
use pvn_project.Mp4.Cut.{extract_from_unchecked-At}
use pvn_project.Mp4.Stbl.{
  Codec, vp08, vp09, other, Stbl, Track, Moov, Atoms, resize_codecs, replace_tracks, splice,
  replace_stbl_atom,
}
use pvn_project.Mp4.Time.{IsFirst}

module _ {V : Type 0} where
  -- A codec with the size of a track.
  unfoldable pub sized : ℕ → ℕ → Codec V → Codec V
  sized width height (vp08 visual) = vp08 (record visual { width = width; height = height })
  sized width height (vp09 visual) = vp09 (record visual { width = width; height = height })
  sized width height other = other

  -- One of the two codecs that can be sized.
  unfoldable pub IsSizable : Codec V → Type 0
  IsSizable codec = codec ≢ other

  resize_codecs-map :
      (width height : ℕ) (codecs : List (Codec V))
      → All IsSizable codecs
      → resize_codecs width height codecs ≡ some (map (sized width height) codecs)
  unfolding resize_codecs sized IsSizable
  resize_codecs-map width height [] h = refl
  resize_codecs-map width height (other ∷ codecs) h = absurd (h.0 refl)
  resize_codecs-map width height (vp08 visual ∷ codecs) h =
      rw (resize_codecs-map width height codecs h.1, resize_codecs) refl
  resize_codecs-map width height (vp09 visual ∷ codecs) h =
      rw (resize_codecs-map width height codecs h.1, resize_codecs) refl

module _ {V S T : Type 0} where
  -- A track with the timescale, and with the codecs of the template in the track's own size.
  unfoldable pub adapt : Stbl V S → ℕ → Track V S T → Track V S T
  unfolding sized
  adapt stbl timescale track = record track {
    timescale = timescale;
    stbl = record stbl { codecs = map (sized track.width track.height) stbl.codecs };
  }

  replace_tracks-map :
      (stbl : Stbl V S) (timescale : ℕ) (tracks : List (Track V S T))
      → All IsSizable stbl.codecs
      → replace_tracks stbl timescale tracks ≡ some (map (adapt stbl timescale) tracks)
  unfolding replace_tracks adapt
  replace_tracks-map stbl timescale [] h = refl
  replace_tracks-map stbl timescale (track ∷ tracks) h =
      rw
        (
          resize_codecs-map track.width track.height stbl.codecs h,
          replace_tracks-map stbl timescale tracks h,
          replace_tracks,
        )
        refl

-- The described bytes, with the eight before them, make way for others.
splice-At :
    (front header body rest written : List ℕ) (buffer : List ℕ) (d : AtomDescription)
    → At (front ++ header) rest buffer d body
    → length header ≡ 8
    → splice buffer d written ≡ done (front ++ (written ++ rest))
unfolding splice
splice-At front header body rest written buffer d at eight = rw (enough, before, behind) refl
  where
    cut : buffer ≡ front ++ (header ++ (body ++ rest))
    cut = at.parts ∙ append_assoc front header (body ++ rest)

    size : length buffer ≡ length front + (length header + (length body + length rest))
    size =
        ap length cut
        ∙ omega (
          arith,
          length-append front (header ++ (body ++ rest)),
          length-append header (body ++ rest),
          length-append body rest,
        )

    place : d.start - 8 ≡ length front
    place = omega (arith, at.starts, length-append front header)

    past : d.end ≡ length (front ++ header) + length body
    past = at.ends

    enough : leb d.end (length buffer) ≡ true
    enough = ground (arith, size, past, length-append front header)

    before : take (d.start - 8) buffer ≡ front
    before = rw (place, cut) (take-append front (header ++ (body ++ rest)))

    behind : drop d.end buffer ≡ rest
    behind =
        rw (past, at.parts)
          (sym (
              drop-drop (length body) (length (front ++ header))
                ((front ++ header) ++ (body ++ rest)))
            ∙ rw (drop-append (front ++ header) (body ++ rest)) (drop-append body rest))

module _ {V S T M : Type 0} (lib : Atoms V S T M) (header_bytes : ℕ → ℕ → List ℕ)
    (laws : HeaderLaws lib.read_from header_bytes) (kinds : Kinds) where
  -- A file has a Moov atom, the first of its kind and with room in its header, and any atoms before
  -- it and bytes behind it. The library reads that atom, a template's Stbl atom in which all codecs
  -- are VP8 or VP9, and writes the Moov atom in which each track has the timescale and the
  -- template's codecs in the size of that track. Then the result is the file with what is written
  -- in the place of the Moov atom, header included, and all other bytes as they are.
  pub replace_stbl_atom-layout :
      (atoms : List (ℕ × List ℕ)) (body rest new_stbl written : List ℕ) (timescale : ℕ)
      (moov : Moov V S T M) (stbl : Stbl V S)
      → IsFirst kinds.moov atoms body
      → lib.read_moov (record { kind = kinds.moov; size = some (length body) }) body ≡ some moov
      → lib.read_stbl new_stbl ≡ some stbl
      → All IsSizable stbl.codecs
      → lib.write_moov (record moov { trak = map (adapt stbl timescale) moov.trak }) ≡ some written
      → replace_stbl_atom lib kinds
          (layout lib.read_from header_bytes laws atoms
            ++ (box lib.read_from header_bytes laws (kinds.moov, body) ++ rest))
          new_stbl
          timescale
        ≡ done (layout lib.read_from header_bytes laws atoms ++ (written ++ rest))
  unfolding replace_stbl_atom
  replace_stbl_atom-layout atoms body rest new_stbl written timescale moov stbl (fits, others, fit)
        reads template sizable writes =
      let (d, found, at) =
        find_atom-At lib.read_from header_bytes laws atoms kinds.moov body rest fits others fit in
      let header =
        find_atom-header lib.read_from header_bytes laws atoms kinds.moov body rest fits others fit
          found in
      rw (found, replace_stbl_atom)
        (rw (extract_from_unchecked-At _ _ _ d body at, replace_stbl_atom)
          (rw (header, reads, template, replace_tracks-map stbl timescale moov.trak sizable, writes)
            (splice-At _ _ body rest written _ d at
              (laws.length-header_bytes kinds.moov (length body)))))
