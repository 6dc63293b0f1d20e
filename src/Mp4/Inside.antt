-- ===== src/Mp4/Inside.antt =====
-- Atoms inside an atom, and the copy of a time into one.
use pvn_project.Base.{
  ℕ, ◌+◌, ◌≤◌, ◌≡◌, ◌≢◌, refl, sym, ap, ◌∙◌, true, List, ◌++◌, append_assoc, Option, leb, length,
  length-append, take, drop, take-append, drop-append, drop-drop, All, arith,
}
use pvn_project.Mp4.{Header, AtomDescription, done, as_usize, find_inside, write_time}
use pvn_project.Mp4.Search.{HeaderLaws, Fits, At, box, layout, as_usize_within, find_atom-At}
use pvn_project.Mp4.Cut.{extract_from_unchecked-At}

-- Bytes 4 to 8 of the described body are overwritten.
pub write_time-At :
    (before after buffer flags old more time : List ℕ) (d : AtomDescription)
    → At before after buffer d (flags ++ (old ++ more))
    → length flags ≡ 4
    → length old ≡ 4
    → write_time buffer d time ≡ done ((before ++ flags) ++ (time ++ (more ++ after)))
unfolding write_time
write_time-At before after buffer flags old more time d at four four' =
    rw (enough, front, back) refl
  where
    cut : buffer ≡ (before ++ flags) ++ (old ++ (more ++ after))
    cut =
        at.parts
        ∙ ap (λ r. before ++ r)
            (append_assoc flags (old ++ more) after
              ∙ ap (λ r. flags ++ r) (append_assoc old more after))
        ∙ sym (append_assoc before flags (old ++ (more ++ after)))

    place : d.start + 4 ≡ length (before ++ flags)
    place = omega (arith, at.starts, length-append before flags)

    past : d.start + 8 ≡ length (before ++ flags) + length old
    past = omega (arith, at.starts, length-append before flags)

    size : length buffer ≡ length (before ++ flags) + (length old + length (more ++ after))
    size =
        ap length cut
        ∙ omega (
          arith,
          length-append (before ++ flags) (old ++ (more ++ after)),
          length-append old (more ++ after),
        )

    enough : leb (d.start + 8) (length buffer) ≡ true
    enough = ground (arith, size, past)

    front : take (d.start + 4) buffer ≡ before ++ flags
    front = rw (place, cut) (take-append (before ++ flags) (old ++ (more ++ after)))

    back : drop (d.start + 8) buffer ≡ more ++ after
    back =
        rw (past, cut)
          (sym (
              drop-drop (length old) (length (before ++ flags))
                ((before ++ flags) ++ (old ++ (more ++ after))))
            ∙ rw (drop-append (before ++ flags) (old ++ (more ++ after)))
                (drop-append old (more ++ after)))

module _ (read_from : List ℕ → Option Header) (header_bytes : ℕ → ℕ → List ℕ)
    (laws : HeaderLaws read_from header_bytes) where
  abbrev lay : List (ℕ × List ℕ) → List ℕ
  lay = layout read_from header_bytes laws

  abbrev boxed : ℕ × List ℕ → List ℕ
  boxed = box read_from header_bytes laws

  -- Inside a body that is found, an atom is found at its place in the whole buffer.
  pub find_inside-At :
      (before after buffer : List ℕ) (parent : AtomDescription) (atoms : List (ℕ × List ℕ))
      (atom : ℕ) (body rest : List ℕ)
      → At before after buffer parent (lay atoms ++ (boxed (atom, body) ++ rest))
      → All Fits atoms
      → All (λ a. a.0 ≢ atom) atoms
      → Fits (atom, body)
      → (d : AtomDescription) × (find_inside read_from buffer parent atom ≡ done d)
        × At
            (before ++ (lay atoms ++ header_bytes atom (length body)))
            (rest ++ after)
            buffer
            d
            body
  unfolding find_inside
  find_inside-At before after buffer parent atoms atom body rest at fits others fit =
      let (d, found, there) =
        find_atom-At read_from header_bytes laws atoms atom body rest fits others fit in
      let parts : buffer ≡ front ++ (body ++ (rest ++ after)) =
        at.parts
        ∙ ap (λ r. before ++ (r ++ after)) there.parts
        ∙ ap (λ r. before ++ r)
            (append_assoc (lay atoms ++ header_bytes atom (length body)) (body ++ rest) after
              ∙ ap (λ r. (lay atoms ++ header_bytes atom (length body)) ++ r)
                  (append_assoc body rest after))
        ∙ sym (
            append_assoc before (lay atoms ++ header_bytes atom (length body))
              (body ++ (rest ++ after))) in
      let past : d.end + parent.start ≡ length front + length body = omega (
        arith,
        there.ends,
        at.starts,
        length-append before (lay atoms ++ header_bytes atom (length body)),
      ) in
      let near : d.end + parent.start ≤ length buffer = omega (
        arith,
        past,
        ap length parts,
        length-append front (body ++ (rest ++ after)),
        length-append body (rest ++ after),
      ) in
      (
        record d { start = d.start + parent.start; end = as_usize buffer (d.end + parent.start) },
        rw (extract_from_unchecked-At before after buffer parent _ at, find_inside)
            (rw (found, find_inside) refl),
        record {
          parts = parts;
          starts = omega (
            arith,
            there.starts,
            at.starts,
            length-append before (lay atoms ++ header_bytes atom (length body)),
          );
          ends = as_usize_within buffer _ near ∙ past;
        },
      )
    where
      front : List ℕ
      front = before ++ (lay atoms ++ header_bytes atom (length body))
