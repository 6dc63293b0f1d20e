-- ===== src/Parent/Delivery.antt =====
-- From the parent's tasks to the client: what the parent writes is what the client takes.
use pvn_project.Base.{
  inl, inr, Option-cases, ℕ, zero, suc, ◌<◌, ◌≡◌, refl, sym, ap, ◌∙◌, List, [], ◌∷◌, ◌++◌,
  append_assoc, append-nil, map, subst, Option, none, some, length, All, Eq, u32_mod,
}
use pvn_project.Wire.{Response, DownstreamMessage, response, page_loaded}
use pvn_project.Wire.RoundTrip.{frame, serialize_to-frame, extract_from-frame, Travels}
use pvn_project.EventHub.{Events}
use pvn_project.ClientCache.{
  Outside, goes_on, PullThroughClient, Loop, take_message, read_message, loop_step,
}
use pvn_project.ClientCache.Delivery.{take_message-fate}
use pvn_project.Parent.{record_lcp}
use pvn_project.Parent.Push.{push, push_all, lcp_messages}

-- An order in which two tasks lock the writer for their messages.
pub data Merge {A : Type 0} : List A → List A → List A → Type 0 where
  ends : Merge [] [] []
  first : {x : A} {xs ys zs : List A} → Merge xs ys zs → Merge (x ∷ xs) ys (x ∷ zs)
  second : {y : A} {xs ys zs : List A} → Merge xs ys zs → Merge xs (y ∷ ys) (y ∷ zs)

module _ {U H F : Type 0} where
  -- The responses among the messages.
  unfoldable pub responses : List (DownstreamMessage U H F) → List (Response U H)
  responses [] = []
  responses (response r ∷ messages) = r ∷ responses messages
  responses (page_loaded n ∷ messages) = responses messages

  abbrev Notes : DownstreamMessage U H F → Type 0
  Notes (response r) = ⊥
  Notes (page_loaded n) = Unit

  responses-Merge :
      {xs notes messages : List (DownstreamMessage U H F)}
      → Merge xs notes messages
      → All Notes notes
      → responses messages ≡ responses xs
  unfolding responses
  responses-Merge ends all = refl
  responses-Merge (first {x = response r} m) all = ap (◌∷◌ r) (responses-Merge m all)
  responses-Merge (first {x = page_loaded n} m) all = responses-Merge m all
  responses-Merge (second {y = response r} m) all = absurd all.0
  responses-Merge (second {y = page_loaded n} m) all = responses-Merge m all.1

module _ {U H : Type 0} (F : Type 0) where
  responses-map : (rs : List (Response U H)) → responses {F = F} (map response rs) ≡ rs
  unfolding responses
  responses-map [] = refl
  responses-map (r ∷ rs) = ap (◌∷◌ r) (responses-map rs)

module _ {U F : Type 0} (H : Type 0) (minus : F → F → F) (start : F) (url : U) where
  lcp_messages-Notes :
      (paints : List (Option F)) → All Notes (lcp_messages {H = H} minus start url paints)
  unfolding lcp_messages
  lcp_messages-Notes paints = elim (Option-cases (record_lcp paints)) [
    | inl never ↦ rw (never, lcp_messages) tt
    | inr (lcp, painted) ↦ rw (painted, lcp_messages) (tt, tt)
  ]

module _ {U H F R C W Ev : Type 0} ⦃e : Eq U⦄ (outside : Outside U H F R C)
    (events : Events W Ev (Response U H)) where
  -- Rounds of the client's loop, for as long as it has a connection.
  unfoldable pub run : ℕ → Loop U Ev C W → Loop U Ev C W
  run zero l = l
  run (suc n) l = run n (loop_step outside events l none)

  -- The client after it has taken the messages, one after the other.
  unfoldable pub take_all :
      PullThroughClient U Ev C → W → List (DownstreamMessage U H F) → PullThroughClient U Ev C × W
  take_all client w [] = (client, w)
  take_all client w (m ∷ messages) =
      let (client', w', fate) = take_message outside events client w m in
      take_all client' w' messages

  -- A response that can be converted.
  abbrev pub Converts : DownstreamMessage U H F → Type 0
  Converts (response r) = (r' : R) × (outside.convert r ≡ some r')
  Converts (page_loaded n) = Unit

  take_message-Converts :
      (client : PullThroughClient U Ev C) (w : W) (m : DownstreamMessage U H F)
      → Converts m
      → (take_message outside events client w m).2 ≡ goes_on
  take_message-Converts client w m good = elim (take_message-fate outside events client w m) [
    | inl fine ↦ fine
    | inr (dead, r, is, nobody, bad) ↦ absurd (clash r bad (subst Converts is good))
  ]
    where
      clash :
          (r : Response U H)
          → outside.convert r ≡ none
          → (r' : R) × (outside.convert r ≡ some r')
          → ⊥
      clash r bad (r', good) = cc

  module _ (encode : DownstreamMessage U H F → Option (List ℕ)) where
    loop_step-frame :
        (client : PullThroughClient U Ev C) (w : W) (m : DownstreamMessage U H F)
        (bytes rest : List ℕ) (used : ℕ)
        → outside.decode_message bytes ≡ some (m, used)
        → length bytes < u32_mod
        → Converts m
        → let (client', w', fate) = take_message outside events client w m in
          loop_step outside events
            (record {
              read_half = some (frame bytes ++ rest);
              client = client;
              world = w;
              fate = goes_on;
            })
            none
          ≡ record { read_half = some rest; client = client'; world = w'; fate = goes_on }
    unfolding loop_step read_message
    loop_step-frame client w m bytes rest used d h good =
        rw (extract_from-frame encode outside.decode_message m bytes rest used h d, read_message)
          (rw (take_message-Converts client w m good) refl)

    push_all-taken :
        (messages : List (DownstreamMessage U H F)) (writer rest : List ℕ)
        (client : PullThroughClient U Ev C) (w : W)
        → All (Travels encode outside.decode_message) messages
        → All Converts messages
        → let (client', w') = take_all client w messages in
          (written : List ℕ) × (push_all encode messages writer ≡ writer ++ written)
          × (run (length messages) (record {
            read_half = some (written ++ rest);
            client = client;
            world = w;
            fate = goes_on;
          })
              ≡ record { read_half = some rest; client = client'; world = w'; fate = goes_on })
    unfolding push_all push run take_all
    push_all-taken [] writer rest client w t good = ([], sym (append-nil writer), refl)
    push_all-taken (m ∷ messages) writer rest client w t good =
        let (bytes, used, enc, d, h) = t.0 in
        let (client', w', fate) = take_message outside events client w m in
        let (written, writes, takes) =
          push_all-taken messages (writer ++ frame bytes) rest client' w' t.1 good.1 in
        (
          frame bytes ++ written,
          rw (serialize_to-frame encode m bytes writer enc h, push)
              (writes ∙ append_assoc writer (frame bytes) written),
          ap
                (λ reader.
                  run (suc (length messages)) (record {
                    read_half = some reader;
                    client = client;
                    world = w;
                    fate = goes_on;
                  }))
                (append_assoc (frame bytes) written rest)
              ∙ ap (run (length messages))
                  (loop_step-frame client w m bytes (written ++ rest) used d h good.0)
              ∙ takes,
        )

    -- Two tasks of the parent write the resources of a page and the time of its largest paint to
    -- the connection, in any order in which they lock it. Their messages have encodings that are
    -- decoded to them and are shorter than 2^32 bytes, and the resources can be converted. Then the client, in one round of its loop
    -- for each message, takes just these messages in the order in which they were written, among
    -- them all the resources in their order, and what follows on the connection stays unread; the loop goes on.
    pub push_all-Merge :
        (minus : F → F → F) (start : F) (url : U) (resources : List (Response U H))
        (paints : List (Option F)) (messages : List (DownstreamMessage U H F))
        (writer rest : List ℕ) (client : PullThroughClient U Ev C) (w : W)
        → Merge (map response resources) (lcp_messages minus start url paints) messages
        → All (Travels encode outside.decode_message) messages
        → All Converts messages
        → let (client', w') = take_all client w messages in
          (responses messages ≡ resources)
          × (written : List ℕ) × (push_all encode messages writer ≡ writer ++ written)
          × (run (length messages) (record {
            read_half = some (written ++ rest);
            client = client;
            world = w;
            fate = goes_on;
          })
              ≡ record { read_half = some rest; client = client'; world = w'; fate = goes_on })
    push_all-Merge minus start url resources paints messages writer rest client w merged t good =
        let (written, writes, takes) = push_all-taken messages writer rest client w t good in
        (
          responses-Merge merged (lcp_messages-Notes H minus start url paints)
              ∙ responses-map F resources,
          written,
          writes,
          takes,
        )
