-- ===== src/Torrent.antt =====
-- apps/bittorrent_offload/src/routes.rs: the routes for torrents, and the archive of a download.
-- The BitTorrent session, the file system and the UUIDs are parameters.
pub mod Zip
pub mod Uploads
pub mod Calm
mod Tests
use pvn_project.Base.{
  ℕ, Bool, List, [], ◌∷◌, ◌++◌, Option, none, some, if◌then◌else◌, string_eq, ◌⊎◌, inl, inr, has,
  Eq, Outcome, done, panics,
}

-- What a torrent is added from, after its source has been looked up.
pub data AddTorrent : Type 0 where
  from_url : List ℕ → AddTorrent
  from_bytes : List ℕ → AddTorrent

-- `limits`, and the folder of its own for each torrent.
pub record AddTorrentOptions (L I : Type 0) : Type 0 where
  pub sub_folder : I
  pub ratelimits : L

-- The session: its state, a torrent's details and statistics, and errors with their status.
pub record Api (A D P E L I : Type 0) : Type 0 where
  pub torrent_details : A → ℕ → E ⊎ D
  pub stats : A → ℕ → E ⊎ P
  pub with_stats : P → D → D
  pub finished : P → Bool
  pub output_folder : D → List ℕ
  pub add : AddTorrent → AddTorrentOptions L I → A → A × (E ⊎ D)
  pub delete : ℕ → A → A × (E ⊎ D)
  pub status : E → ℕ

-- The file system, and the text of a UUID. A write is only accepted when `write_all` returns, and
-- carried out in the background, by `carry_on`: `content` is what a file holds once all that was
-- accepted for it has been carried out, and `landed` says whether this is so.
pub record Files (F I : Type 0) : Type 0 where
  pub create : List ℕ → F → Option F
  pub write_all : List ℕ → List ℕ → F → F × Bool
  pub read : List ℕ → F → Option (List ℕ)
  pub carry_on : F → F
  pub content : List ℕ → F → Option (List ℕ)
  pub landed : List ℕ → F → Bool
  pub show : I → List ℕ

-- The session's state and the file system, which the program does not hold itself, stand with the
-- set of files.
pub record TorrentState (A F I : Type 0) : Type 0 where
  pub api : A
  pub files : F
  pub torrent_files : List I

pub data NewTorrentSource (I : Type 0) : Type 0 where
  url : List ℕ → NewTorrentSource I
  file : I → NewTorrentSource I

pub record NewTorrent (L I : Type 0) : Type 0 where
  pub source : NewTorrentSource I
  pub limits : L

pub data Body (D E I : Type 0) : Type 0 where
  json : D → Body D E I
  error : E → Body D E I
  not_found not_finished no_field no_zip went_wrong : Body D E I
  uploaded : I → Body D E I
  zip : List ℕ → Body D E I

pub record Response (D E I : Type 0) : Type 0 where
  pub status : ℕ
  pub body : Body D E I

-- The parts of a form: a name, if there is one, and the bytes, if they arrive.
pub data Multipart : Type 0 where
  ends : Multipart
  fails : Multipart
  field : Option (List ℕ) → Option (List ℕ) → Multipart → Multipart

abbrev pub torrent_file_field : List ℕ
torrent_file_field =
    b't' ∷ b'o' ∷ b'r' ∷ b'r' ∷ b'e' ∷ b'n' ∷ b't' ∷ b'_' ∷ b'f' ∷ b'i' ∷ b'l' ∷ b'e' ∷ []

module _ {A D P E L I : Type 0} (api : Api A D P E L I) where
  unfoldable pub convert_error : E → Response D E I
  convert_error e = record { status = api.status e; body = error e }

  unfoldable pub map_result : E ⊎ D → Response D E I
  unfolding convert_error
  map_result (inl e) = convert_error e
  map_result (inr d) = record { status = 200; body = json d }

  unfoldable pub get_torrent : ℕ → A → Response D E I
  unfolding convert_error
  get_torrent id a = elim (api.torrent_details a id) [
    | inl e ↦ convert_error e
    | inr details ↦ elim (api.stats a id) [
      | inl e ↦ convert_error e
      | inr stats ↦ record { status = 200; body = json (api.with_stats stats details) }
    ]
  ]

  -- `build_zip` stands for the archive of a folder, if it can be built.
  unfoldable pub direct_download : (List ℕ → Option (List ℕ)) → ℕ → A → Response D E I
  unfolding convert_error
  direct_download build_zip id a = elim (api.torrent_details a id) [
    | inl e ↦ convert_error e
    | inr details ↦ elim (api.stats a id) [
      | inl e ↦ convert_error e
      | inr stats ↦
          if api.finished stats
          then elim (build_zip (api.output_folder details)) [
            | none ↦ record { status = 500; body = no_zip }
            | some bytes ↦ record { status = 200; body = zip bytes }
          ]
          else record { status = 503; body = not_finished }
    ]
  ]

  module _ {F : Type 0} where
    unfoldable pub delete_torrent : ℕ → TorrentState A F I → TorrentState A F I × Response D E I
    unfolding map_result
    delete_torrent id state =
        let deleted = api.delete id state.api in
        (record state { api = deleted.0 }, map_result deleted.1)

    -- The torrent goes to the session.
    unfoldable pub add_to_session :
        AddTorrent
        → AddTorrentOptions L I
        → TorrentState A F I
        → TorrentState A F I × Outcome (Response D E I)
    unfolding map_result
    add_to_session torrent options state =
        let added = api.add torrent options state.api in
        (record state { api = added.0 }, done (map_result added.1))

module _ {F I : Type 0} (fs : Files F I) (folder : List ℕ) where
  unfoldable pub filename : I → List ℕ
  filename id = folder ++ (b'/' ∷ fs.show id)

module _ {A D P E L F I : Type 0} ⦃same : Eq I⦄ (api : Api A D P E L I) (fs : Files F I)
    (folder : List ℕ) where
  -- `sub_folder` stands for the new UUID.
  unfoldable pub add_torrent :
      I → NewTorrent L I → TorrentState A F I → TorrentState A F I × Outcome (Response D E I)
  unfolding add_to_session filename
  add_torrent sub_folder torrent state = elim torrent.source [
    | url link ↦
        add_to_session api (from_url link)
          (record { sub_folder = sub_folder; ratelimits = torrent.limits }) state
    | file data_id ↦
        if has data_id state.torrent_files
        then elim (fs.read (filename fs folder data_id) state.files) [
          | none ↦ (state, panics)
          | some bytes ↦
              add_to_session api (from_bytes bytes)
                (record { sub_folder = sub_folder; ratelimits = torrent.limits }) state
        ]
        else (state, done (record { status = 503; body = not_found }))
  ]

abbrev pub went_wrong_reply : {D E I : Type 0} → Response D E I
went_wrong_reply = record { status = 500; body = went_wrong }

module _ {A D E F I : Type 0} (fs : Files F I) (folder : List ℕ) where
  unfoldable pub store_file :
      I → Option (List ℕ) → TorrentState A F I → TorrentState A F I × Response D E I
  unfolding filename
  store_file id body state =
      let known = record state { torrent_files = id ∷ state.torrent_files } in
      elim (fs.create (filename fs folder id) state.files) [
        | none ↦ (known, went_wrong_reply)
        | some created ↦ elim body [
          | none ↦ (record known { files = created }, went_wrong_reply)
          | some bytes ↦
              let written = fs.write_all (filename fs folder id) bytes created in
              (
                record known { files = written.0 },
                if written.1 then record { status = 200; body = uploaded id } else went_wrong_reply,
              )
        ]
      ]

  -- The `while` loop over the parts; `id` stands for the new UUID.
  unfoldable pub add_torrent_file :
      I → Multipart → TorrentState A F I → TorrentState A F I × Response D E I
  unfolding store_file
  add_torrent_file id ends state = (state, record { status = 400; body = no_field })
  add_torrent_file id fails state = (state, went_wrong_reply)
  add_torrent_file id (field none body rest) state = add_torrent_file id rest state
  add_torrent_file id (field (some name) body rest) state =
      let next = add_torrent_file id rest state in
      if string_eq name torrent_file_field then store_file id body state else next

-- The requests that change what is kept, each with the UUID that it draws, and the background's own
-- work between them.
pub data Request (L I : Type 0) : Type 0 where
  adds : I → NewTorrent L I → Request L I
  uploads : I → Multipart → Request L I
  deletes : ℕ → Request L I
  carries_on : Request L I

module _ {A D P E L F I : Type 0} ⦃same : Eq I⦄ (api : Api A D P E L I) (fs : Files F I)
    (folder : List ℕ) where
  -- The state behind a request; a panic ends the request and no other.
  unfoldable pub serve : Request L I → TorrentState A F I → TorrentState A F I
  unfolding add_torrent add_torrent_file delete_torrent
  serve (adds sub_folder torrent) state = (add_torrent api fs folder sub_folder torrent state).0
  serve (uploads id form) state = (add_torrent_file {D = D} {E = E} fs folder id form state).0
  serve (deletes id) state = (delete_torrent api id state).0
  serve carries_on state = record state { files = fs.carry_on state.files }

  unfoldable pub serve_all : List (Request L I) → TorrentState A F I → TorrentState A F I
  unfolding serve
  serve_all [] state = state
  serve_all (req ∷ reqs) state = serve_all reqs (serve req state)
