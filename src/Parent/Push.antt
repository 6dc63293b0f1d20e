-- ===== src/Parent/Push.antt =====
-- What the parent writes to the client: the resources of a page, the time of its largest paint, and
-- the answer to a direct request. The connection's writer is the bytes written so far; it is
-- locked for a whole message at a time.
use pvn_project.Base.{ℕ, List, [], ◌∷◌, Option, none, some, Outcome, done, or_bail}
use pvn_project.Wire.{Request, DownstreamMessage, response, page_loaded, serialize_to}
use pvn_project.Parent.{record_lcp}

-- The answer of the HTTP client to a GET request: its URL, status, headers and body, where there is
-- a body.
pub record Fetched (U H : Type 0) : Type 0 where
  pub url : U
  pub status : ℕ
  pub headers : H
  pub bytes : Option (List ℕ)

-- The messages of the task that records the paint; `minus` subtracts the start's time.
unfoldable pub lcp_messages :
    {U H F : Type 0} → (F → F → F) → F → U → List (Option F) → List (DownstreamMessage U H F)
lcp_messages minus start url events = elim (record_lcp events) [
  | none ↦ []
  | some lcp ↦ page_loaded (record { url = url; lcp_secs = minus lcp start }) ∷ []
]

module _ {U H F : Type 0} (encode : DownstreamMessage U H F → Option (List ℕ)) where
  -- A failed write is a warning.
  unfoldable pub push : DownstreamMessage U H F → List ℕ → List ℕ
  push message writer = elim (serialize_to encode message writer) [
    | none ↦ writer
    | some written ↦ written
  ]

  -- The messages of all tasks, in the order in which the writer is locked for them.
  unfoldable pub push_all : List (DownstreamMessage U H F) → List ℕ → List ℕ
  unfolding push
  push_all [] writer = writer
  push_all (m ∷ messages) writer = push_all messages (push m writer)

  -- `send` stands for the HTTP client.
  unfoldable pub resolve_direct :
      (U → H → Option (Fetched U H)) → Request U H → List ℕ → Outcome (List ℕ)
  resolve_direct send req writer = or_bail (send req.url req.headers) (λ fetched.
      or_bail fetched.bytes (λ body.
        or_bail
          (serialize_to encode
            (response (record {
              original_request = req;
              url = fetched.url;
              status = fetched.status;
              headers = fetched.headers;
              body = body;
            }))
            writer)
          (λ written. done written)))
