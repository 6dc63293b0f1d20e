-- ===== src/Dash/Names.antt =====
-- apps/video_transcoder/src/dash_transcoder.rs: the names in a manifest and in its templates.
use pvn_project.Base.{ℕ, List, [], ◌∷◌}

-- The names in a manifest.
pub record Names : Type 0 where
  pub base_url : List ℕ
  pub mpd : List ℕ
  pub period : List ℕ
  pub adaptation_set : List ℕ
  pub representation : List ℕ
  pub segment_template : List ℕ
  pub content_type : List ℕ
  pub mime_type : List ℕ
  pub video : List ℕ
  pub video_mp4 : List ℕ
  pub id : List ℕ
  pub bandwidth : List ℕ
  pub timescale : List ℕ
  pub duration : List ℕ
  pub initialization : List ℕ
  pub media : List ℕ
  pub codecs : List ℕ
  pub target_codec : List ℕ

abbrev pub names : Names
names = record {
  base_url = b'B' ∷ b'a' ∷ b's' ∷ b'e' ∷ b'U' ∷ b'R' ∷ b'L' ∷ [];
  mpd = b'M' ∷ b'P' ∷ b'D' ∷ [];
  period = b'P' ∷ b'e' ∷ b'r' ∷ b'i' ∷ b'o' ∷ b'd' ∷ [];
  adaptation_set =
      b'A' ∷ b'd' ∷ b'a' ∷ b'p' ∷ b't' ∷ b'a' ∷ b't' ∷ b'i' ∷ b'o' ∷ b'n' ∷ b'S' ∷ b'e' ∷ b't' ∷ [];
  representation =
      b'R' ∷ b'e' ∷ b'p' ∷ b'r' ∷ b'e' ∷ b's' ∷ b'e' ∷ b'n' ∷ b't' ∷ b'a' ∷ b't' ∷ b'i' ∷ b'o'
      ∷ b'n' ∷ [];
  segment_template =
      b'S' ∷ b'e' ∷ b'g' ∷ b'm' ∷ b'e' ∷ b'n' ∷ b't' ∷ b'T' ∷ b'e' ∷ b'm' ∷ b'p' ∷ b'l' ∷ b'a'
      ∷ b't' ∷ b'e' ∷ [];
  content_type = b'c' ∷ b'o' ∷ b'n' ∷ b't' ∷ b'e' ∷ b'n' ∷ b't' ∷ b'T' ∷ b'y' ∷ b'p' ∷ b'e' ∷ [];
  mime_type = b'm' ∷ b'i' ∷ b'm' ∷ b'e' ∷ b'T' ∷ b'y' ∷ b'p' ∷ b'e' ∷ [];
  video = b'v' ∷ b'i' ∷ b'd' ∷ b'e' ∷ b'o' ∷ [];
  video_mp4 = b'v' ∷ b'i' ∷ b'd' ∷ b'e' ∷ b'o' ∷ b'/' ∷ b'm' ∷ b'p' ∷ b'4' ∷ [];
  id = b'i' ∷ b'd' ∷ [];
  bandwidth = b'b' ∷ b'a' ∷ b'n' ∷ b'd' ∷ b'w' ∷ b'i' ∷ b'd' ∷ b't' ∷ b'h' ∷ [];
  timescale = b't' ∷ b'i' ∷ b'm' ∷ b'e' ∷ b's' ∷ b'c' ∷ b'a' ∷ b'l' ∷ b'e' ∷ [];
  duration = b'd' ∷ b'u' ∷ b'r' ∷ b'a' ∷ b't' ∷ b'i' ∷ b'o' ∷ b'n' ∷ [];
  initialization =
      b'i' ∷ b'n' ∷ b'i' ∷ b't' ∷ b'i' ∷ b'a' ∷ b'l' ∷ b'i' ∷ b'z' ∷ b'a' ∷ b't' ∷ b'i' ∷ b'o'
      ∷ b'n' ∷ [];
  media = b'm' ∷ b'e' ∷ b'd' ∷ b'i' ∷ b'a' ∷ [];
  codecs = b'c' ∷ b'o' ∷ b'd' ∷ b'e' ∷ b'c' ∷ b's' ∷ [];
  target_codec =
      b'v' ∷ b'p' ∷ b'0' ∷ b'9' ∷ b'.' ∷ b'0' ∷ b'0' ∷ b'.' ∷ b'1' ∷ b'0' ∷ b'.' ∷ b'0' ∷ b'8' ∷ [];
}

-- What the templates of a manifest may name, and the patterns for it.
pub record Variables : Type 0 where
  pub representation_id : List ℕ
  pub bandwidth : List ℕ
  pub number : List ℕ
  pub time : List ℕ
  pub sub_number : List ℕ
  pub digits_group : List ℕ
  pub digits : List ℕ

abbrev pub vars : Variables
vars = record {
  representation_id =
      b'$' ∷ b'R' ∷ b'e' ∷ b'p' ∷ b'r' ∷ b'e' ∷ b's' ∷ b'e' ∷ b'n' ∷ b't' ∷ b'a' ∷ b't' ∷ b'i'
      ∷ b'o' ∷ b'n' ∷ b'I' ∷ b'D' ∷ b'$' ∷ [];
  bandwidth = b'$' ∷ b'B' ∷ b'a' ∷ b'n' ∷ b'd' ∷ b'w' ∷ b'i' ∷ b'd' ∷ b't' ∷ b'h' ∷ b'$' ∷ [];
  number = b'\\' ∷ b'$' ∷ b'N' ∷ b'u' ∷ b'm' ∷ b'b' ∷ b'e' ∷ b'r' ∷ b'\\' ∷ b'$' ∷ [];
  time = b'\\' ∷ b'$' ∷ b'T' ∷ b'i' ∷ b'm' ∷ b'e' ∷ b'\\' ∷ b'$' ∷ [];
  sub_number =
      b'\\' ∷ b'$' ∷ b'S' ∷ b'u' ∷ b'b' ∷ b'N' ∷ b'u' ∷ b'm' ∷ b'b' ∷ b'e' ∷ b'r' ∷ b'\\' ∷ b'$'
      ∷ [];
  digits_group = b'(' ∷ b'\\' ∷ b'd' ∷ b'+' ∷ b')' ∷ [];
  digits = b'\\' ∷ b'd' ∷ b'+' ∷ [];
}
