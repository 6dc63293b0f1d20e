-- ===== src/Mp4/Cut.antt =====
-- What a description cuts out of a buffer.
use pvn_project.Base.{
  ℕ, ◌+◌, ◌-◌, ◌≡◌, refl, ap, ◌∙◌, true, List, ◌++◌, some, leb, length, length-append, take, drop,
  take-append, drop-append, arith,
}
use pvn_project.Mp4.{AtomDescription, done, extract_from, extract_from_unchecked}
use pvn_project.Mp4.Search.{At}

pub extract_from-At :
    (before after buffer : List ℕ) (d : AtomDescription) (body : List ℕ)
    → At before after buffer d body
    → extract_from d buffer ≡ done (some body)
unfolding extract_from
extract_from-At before after buffer d body at =
    rw (a, extract_from) (rw (b, extract_from) (rw (c, extract_from) (ap (λ s. done (some s)) cut)))
  where
    size : length buffer ≡ length before + (length body + length after)
    size =
        ap length at.parts
        ∙ omega (arith, length-append before (body ++ after), length-append body after)

    a : leb d.start (length buffer) ≡ true
    a = ground (arith, size, at.starts)

    b : leb d.end (length buffer) ≡ true
    b = ground (arith, size, at.ends)

    c : leb d.start d.end ≡ true
    c = ground (arith, at.starts, at.ends)

    long : d.end - d.start ≡ length body
    long = omega (arith, at.starts, at.ends)

    cut : take (d.end - d.start) (drop d.start buffer) ≡ body
    cut =
        rw (long, at.starts, at.parts, drop-append before (body ++ after)) (take-append body after)

-- What a description names is cut out of its buffer.
pub extract_from_unchecked-At :
    (before after buffer : List ℕ) (d : AtomDescription) (body : List ℕ)
    → At before after buffer d body
    → extract_from_unchecked d buffer ≡ done body
unfolding extract_from_unchecked
extract_from_unchecked-At before after buffer d body at =
    rw (extract_from-At before after buffer d body at, extract_from_unchecked) refl
