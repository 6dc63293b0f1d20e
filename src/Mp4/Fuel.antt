-- ===== src/Mp4/Fuel.antt =====
-- The loop of `find_atom` ends by itself.
use pvn_project.Base.{ℕ, ◌+◌, ◌<◌, ◌≡◌, List, Option, some, length, drop}
use pvn_project.Mp4.{Header, usize_mod}

-- No size that is read in the buffer takes an offset in it past 2^64.
abbrev pub NoWrap : (List ℕ → Option Header) → List ℕ → Type 0
NoWrap read_from buffer =
    (offset size : ℕ) (header : Header)
    → read_from (drop offset buffer) ≡ some header
    → header.size ≡ some size
    → length buffer + (size + 8) < usize_mod
