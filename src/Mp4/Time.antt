-- ===== src/Mp4/Time.antt =====
-- What `transcode_segment` makes of the helper's output.
use pvn_project.Base.{
  ℕ, ◌+◌, ◌-◌, ◌*◌, ◌%◌, ◌≤◌, ◌<◌, [], ◌∷◌, u32_mod, u32_max, ◌≡◌, ◌≢◌, refl, sym, ap, ◌∙◌, Bool,
  true, List, ◌++◌, append_assoc, Option, some, leb, length, length-append, drop, drop-append,
  drop-drop, All, arith,
}
use pvn_project.Mp4.{
  Header, Kinds, AtomDescription, done, set_time, drop_moov, to_be_bytes, base_media_decode_time,
  transcode_segment,
}
use pvn_project.Mp4.Inside.{write_time-At, find_inside-At}
use pvn_project.Mp4.Search.{HeaderLaws, Fits, At, box, layout, find_atom-At}

-- The number that bytes spell, the first of them the greatest.
unfoldable pub be_value : ℕ → List ℕ → ℕ
be_value before [] = before
be_value before (b ∷ bs) = be_value (before * 256 + b) bs

to_be_bytes-be_value :
    (n : ℕ)
    → n < u32_mod
    → (length (to_be_bytes n) ≡ 4)
      × All (λ b. b < 256) (to_be_bytes n)
      × (be_value 0 (to_be_bytes n) ≡ n)
unfolding to_be_bytes be_value
to_be_bytes-be_value n word =
    (refl, (omega arith, (omega arith, (omega arith, (omega arith, tt)))), omega arith)

time_below : (number durations : ℕ) → base_media_decode_time number durations < u32_mod
unfolding base_media_decode_time
time_below number durations = omega arith

base_media_decode_time_lem :
    (number durations : ℕ)
    → 1 ≤ number
    → number < u32_mod
    → base_media_decode_time number durations ≡ (number - 1) * durations % u32_mod
unfolding base_media_decode_time
base_media_decode_time_lem number durations one word =
    ap (λ n. n * durations % u32_mod) (before number one word)
  where
    before : (n : ℕ) → 1 ≤ n → n < u32_mod → (n + u32_max) % u32_mod ≡ n - 1
    before n one word = omega arith

-- A fragment of a video, but for its time: atoms before each of the nested ones, the bytes behind
-- each, and what stands around the time in the innermost body.
pub record Fragment : Type 0 where
  pub before_moof : List (ℕ × List ℕ)
  pub after_moof : List ℕ
  pub before_traf : List (ℕ × List ℕ)
  pub after_traf : List ℕ
  pub before_tfdt : List (ℕ × List ℕ)
  pub after_tfdt : List ℕ
  pub flags : List ℕ
  pub more : List ℕ

-- The atom is the first of its kind, and all have room in their headers.
abbrev pub IsFirst : ℕ → List (ℕ × List ℕ) → List ℕ → Type 0
IsFirst atom before body = All Fits before × All (λ a. a.0 ≢ atom) before × Fits (atom, body)

module _ {A : Type 0} where
  reassemble :
      (b1 h1 b2 h2 b3 h3 flags time more x y z : List A)
      → ((((b1 ++ h1) ++ (b2 ++ h2)) ++ (b3 ++ h3)) ++ flags) ++ (time ++ (more ++ (x ++ (y ++ z))))
        ≡ b1
          ++ ((h1 ++ (b2 ++ ((h2 ++ (b3 ++ ((h3 ++ (flags ++ (time ++ more))) ++ x))) ++ y))) ++ z)
  reassemble b1 h1 b2 h2 b3 h3 flags time more x y z = simp append_assoc

  length-middle :
      (front old new back : List A)
      → length old ≡ length new
      → length (front ++ (old ++ back)) ≡ length (front ++ (new ++ back))
  length-middle front old new back e = omega (
    arith,
    length-append front (old ++ back),
    length-append front (new ++ back),
    length-append old back,
    length-append new back,
  )

module _ (read_from : List ℕ → Option Header) (header_bytes : ℕ → ℕ → List ℕ)
    (laws : HeaderLaws read_from header_bytes) (kinds : Kinds) where
  abbrev pub tfdt_body : Fragment → List ℕ → List ℕ
  tfdt_body f time = f.flags ++ (time ++ f.more)

  abbrev pub traf_body : Fragment → List ℕ → List ℕ
  traf_body f time =
      layout read_from header_bytes laws f.before_tfdt
      ++ (box read_from header_bytes laws (kinds.tfdt, tfdt_body f time) ++ f.after_tfdt)

  abbrev pub moof_body : Fragment → List ℕ → List ℕ
  moof_body f time =
      layout read_from header_bytes laws f.before_traf
      ++ (box read_from header_bytes laws (kinds.traf, traf_body f time) ++ f.after_traf)

  -- The bytes of the fragment with the time.
  abbrev pub fragment : Fragment → List ℕ → List ℕ
  fragment f time =
      layout read_from header_bytes laws f.before_moof
      ++ (box read_from header_bytes laws (kinds.moof, moof_body f time) ++ f.after_moof)

  pub record Readable (f : Fragment) (old : List ℕ) : Type 0 where
    pub moof_first : IsFirst kinds.moof f.before_moof (moof_body f old)
    pub traf_first : IsFirst kinds.traf f.before_traf (traf_body f old)
    pub tfdt_first : IsFirst kinds.tfdt f.before_tfdt (tfdt_body f old)
    pub flags_size : length f.flags ≡ 4
    pub time_size : length old ≡ 4

  length-box_of :
      (kind : ℕ) (a b : List ℕ)
      → length a ≡ length b
      → length (box read_from header_bytes laws (kind, a))
        ≡ length (box read_from header_bytes laws (kind, b))
  length-box_of kind a b e = omega (
    arith,
    length-append (header_bytes kind (length a)) a,
    length-append (header_bytes kind (length b)) b,
    laws.length-header_bytes kind (length a),
    laws.length-header_bytes kind (length b),
  )

  set_time-fragment :
      (f : Fragment) (old time : List ℕ)
      → Readable f old
      → length time ≡ 4
      → set_time read_from kinds (fragment f old) time ≡ done (fragment f time)
  unfolding set_time
  set_time-fragment f old time r four =
      let (m1, m2, m3) = r.moof_first in
      let (t1, t2, t3) = r.traf_first in
      let (d1, d2, d3) = r.tfdt_first in
      let (moof, moof_is, moof_at) =
        find_atom-At read_from header_bytes laws f.before_moof kinds.moof _ f.after_moof m1 m2 m3 in
      let (traf, traf_is, traf_at) =
        find_inside-At read_from header_bytes laws _ _ _ moof f.before_traf kinds.traf _
          f.after_traf moof_at t1 t2 t3 in
      let (tfdt, tfdt_is, tfdt_at) =
        find_inside-At read_from header_bytes laws _ _ _ traf f.before_tfdt kinds.tfdt _
          f.after_tfdt traf_at d1 d2 d3 in
      rw (moof_is, set_time)
        (rw (traf_is, set_time)
          (rw (tfdt_is, set_time)
            (write_time-At _ _ _ f.flags old f.more time tfdt tfdt_at r.flags_size r.time_size
              ∙ ap done (
                  reassemble _ _ _ _ _ _ f.flags time f.more f.after_tfdt f.after_traf f.after_moof
                  ∙ same))))
    where
      tfdt_length : length (tfdt_body f old) ≡ length (tfdt_body f time)
      tfdt_length = length-middle f.flags old time f.more (r.time_size ∙ sym four)

      traf_length : length (traf_body f old) ≡ length (traf_body f time)
      traf_length = length-middle _ _ _ f.after_tfdt (length-box_of kinds.tfdt _ _ tfdt_length)

      moof_length : length (moof_body f old) ≡ length (moof_body f time)
      moof_length = length-middle _ _ _ f.after_traf (length-box_of kinds.traf _ _ traf_length)

      with_sizes : ℕ → ℕ → ℕ → List ℕ
      with_sizes a b c =
          layout read_from header_bytes laws f.before_moof
          ++ ((header_bytes kinds.moof a
                ++ (layout read_from header_bytes laws f.before_traf
                    ++ ((header_bytes kinds.traf b
                          ++ (layout read_from header_bytes laws f.before_tfdt
                              ++ ((header_bytes kinds.tfdt c ++ (f.flags ++ (time ++ f.more)))
                                  ++ f.after_tfdt)))
                        ++ f.after_traf)))
              ++ f.after_moof)

      same :
          with_sizes
            (length (moof_body f old))
            (length (traf_body f old))
            (length (tfdt_body f old))
          ≡ fragment f time
      same = rw (moof_length, traf_length, tfdt_length) refl

  -- The output may hold any atoms before its Moov atom.
  drop_moov-At :
      (atoms : List (ℕ × List ℕ)) (moov rest : List ℕ)
      → IsFirst kinds.moov atoms moov
      → drop_moov read_from kinds (
          layout read_from header_bytes laws atoms
          ++ (box read_from header_bytes laws (kinds.moov, moov) ++ rest))
        ≡ done rest
  unfolding drop_moov
  drop_moov-At atoms moov rest (fits, others, fit) =
      let (d, found, at) =
        find_atom-At read_from header_bytes laws atoms kinds.moov moov rest fits others fit in
      rw (found, drop_moov) (rw (inside d at, drop_moov) (ap done (behind d at)))
    where
      output : List ℕ
      output =
          layout read_from header_bytes laws atoms
          ++ (box read_from header_bytes laws (kinds.moov, moov) ++ rest)

      front : List ℕ
      front = layout read_from header_bytes laws atoms ++ header_bytes kinds.moov (length moov)

      inside :
          (d : AtomDescription) → At front rest output d moov → leb d.end (length output) ≡ true
      inside d at = ground (
        arith,
        at.ends,
        ap length at.parts,
        length-append front (moov ++ rest),
        length-append moov rest,
      )

      behind : (d : AtomDescription) → At front rest output d moov → drop d.end output ≡ rest
      behind d at =
          rw (at.ends, at.parts)
            (sym (drop-drop (length moov) (length front) (front ++ (moov ++ rest)))
              ∙ rw (drop-append front (moov ++ rest)) (drop-append moov rest))

  -- The helper succeeds, and its output has a Moov atom with a fragment behind it: a Moof atom, in
  -- which there is a Traf atom, in which there is a Tfdt atom of version 0, each the first of its
  -- kind and with room in its header. The number of the segment counts from 1 and is a `u32`. Then
  -- the result is that fragment, in which only the four bytes of the decoding time are changed: in
  -- big-endian order they spell the durations of the segments before it, modulo 2^32.
  pub transcode_segment-fragment :
      (run : ℕ → ℕ → List ℕ → Option (Bool × List ℕ)) (init_segment video_segment : List ℕ)
      (timescale number durations : ℕ) (atoms : List (ℕ × List ℕ)) (moov : List ℕ) (f : Fragment)
      (old : List ℕ)
      → run timescale number (init_segment ++ video_segment)
        ≡ some (
          true,
          layout read_from header_bytes laws atoms
              ++ (box read_from header_bytes laws (kinds.moov, moov) ++ fragment f old),
        )
      → IsFirst kinds.moov atoms moov
      → Readable f old
      → 1 ≤ number
      → number < u32_mod
      → (time : List ℕ) × (length time ≡ 4)
        × All (λ b. b < 256) time
        × (be_value 0 time ≡ (number - 1) * durations % u32_mod)
        × (transcode_segment read_from kinds run init_segment video_segment timescale number
              durations
            ≡ done (fragment f time))
  unfolding transcode_segment
  transcode_segment-fragment run init_segment video_segment timescale number durations atoms moov f
        old ran first r one word =
      let t : ℕ = base_media_decode_time number durations in
      let (four, small, spells) = to_be_bytes-be_value t (time_below number durations) in
      (
        to_be_bytes t,
        four,
        small,
        spells ∙ base_media_decode_time_lem number durations one word,
        rw (ran, transcode_segment)
            (rw (drop_moov-At atoms moov (fragment f old) first, transcode_segment)
              (set_time-fragment f old _ r four)),
      )
