-- ===== src/Wire.antt =====
-- apps/rdr_common/src/lib.rs: length-prefixed frames on a byte stream, and the split of a response
-- into parts. The encoding of a value is a parameter. A writer is the bytes written so far, a
-- reader the bytes that are still to come until the end of the stream.
pub mod RoundTrip
pub mod Headers
pub mod Json
mod Tests
use pvn_project.Base.{
  ℕ, zero, suc, ◌+◌, ◌*◌, ◌/◌, ◌%◌, List, [], ◌∷◌, ◌++◌, Option, none, some, ◌>>=◌, length, take,
  drop, ltb, if◌then◌else◌, u32_mod, Eq, insert,
}

-- `u32::to_le_bytes` and `u32::from_le_bytes`
unfoldable pub to_le_bytes : ℕ → List ℕ
to_le_bytes n = (n % 256) ∷ (n / 256 % 256) ∷ (n / 65536 % 256) ∷ (n / 16777216 % 256) ∷ []

unfoldable pub from_le_bytes : List ℕ → ℕ
from_le_bytes [] = 0
from_le_bytes (b ∷ bs) = b + 256 * from_le_bytes bs

-- The first `n` bytes of the reader and the reader behind them; `none` at an early end.
unfoldable pub read_exact : ℕ → List ℕ → Option (List ℕ × List ℕ)
read_exact n reader = if ltb (length reader) n then none else some (take n reader, drop n reader)

module _ {A : Type 0} where
  -- `none` is the error of an encoder that refuses the value.
  unfoldable pub serialize_to : (A → Option (List ℕ)) → A → List ℕ → Option (List ℕ)
  serialize_to encode_to_vec item writer = do
    bytes ← encode_to_vec item
    some ((writer ++ to_le_bytes (length bytes % u32_mod)) ++ bytes)

  -- The decoder also says how many bytes it has read, which is not looked at.
  unfoldable pub extract_from : (List ℕ → Option (A × ℕ)) → List ℕ → Option (A × List ℕ)
  extract_from decode_from_slice reader = do
    (length_bytes, reader') ← read_exact 4 reader
    (bytes, reader'') ← read_exact (from_le_bytes length_bytes) reader'
    (item, _) ← decode_from_slice bytes
    some (item, reader'')

-- What travels: types for URLs, header maps and floats are parameters.
pub record Request (U H : Type 0) : Type 0 where
  pub url : U
  pub headers : H

pub record Response (U H : Type 0) : Type 0 where
  pub original_request : Request U H
  pub url : U
  pub status : ℕ
  pub headers : H
  pub body : List ℕ

pub record PageLoadNotification (U F : Type 0) : Type 0 where
  pub url : U
  pub lcp_secs : F

pub data DownstreamMessage (U H F : Type 0) : Type 0 where
  response : Response U H → DownstreamMessage U H F
  page_loaded : PageLoadNotification U F → DownstreamMessage U H F

-- The URL that a message is about.
unfoldable pub url : {U H F : Type 0} → DownstreamMessage U H F → U
url (response r) = r.url
url (page_loaded n) = n.url

-- The loop of `Response::convert` over the entries of a header map, in which only the first entry
-- of a name carries it. `to_str` reads a value; `none` is the panic of an `unwrap`.
module _ {K V S : Type 0} ⦃e : Eq K⦄ (to_str : V → Option S) where
  unfoldable pub convert_entry : Option K → V → List (K × S) → Option (List (K × S))
  convert_entry none value headers = none
  convert_entry (some name) value headers = do text ← to_str value; some (insert name text headers)

  unfoldable pub convert_headers :
      List (Option K × V) → Option K → List (K × S) → Option (List (K × S))
  convert_headers [] header_name headers = some headers
  convert_headers ((some key, value) ∷ entries) header_name headers =
      convert_entry (some key) value headers >>= convert_headers entries (some key)
  convert_headers ((none, value) ∷ entries) header_name headers =
      convert_entry header_name value headers >>= convert_headers entries header_name
