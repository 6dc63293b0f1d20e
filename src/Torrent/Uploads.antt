-- ===== src/Torrent/Uploads.antt =====
-- The uploaded files, and the torrents that are added from them.
use pvn_project.Base.{
  ℕ, ◌≡◌, ◌≢◌, refl, ◌∙◌, inl, inr, true, Bool-cases, List, [], ◌∷◌, ◌++◌, Option, none, some,
  Option-cases, All, Eq, arith, if◌then◌else◌, has, has_self, string_eq,
}
use pvn_project.Torrent.{
  from_bytes, Api, Files, TorrentState, NewTorrentSource, url, file, NewTorrent, Multipart, ends,
  fails, field, torrent_file_field, add_to_session, filename, add_torrent, store_file,
  add_torrent_file, delete_torrent, Request, adds, uploads, deletes, carries_on, serve, serve_all,
}

-- A file that is created is empty, and other files stay; a file can be read after a write, whether
-- it was accepted or not, and while the background works. What is accepted for an empty file is its
-- content, which is what is read once it has landed. UUIDs have different texts.
pub record FilesLaws {F I : Type 0} (fs : Files F I) : Type 0 where
  pub read-create_self :
      (path : List ℕ) (f : F) {f' : F} → fs.create path f ≡ some f' → fs.read path f' ≡ some []
  pub read-create_other :
      (path other : List ℕ) (f : F) {f' : F}
      → path ≢ other
      → fs.create path f ≡ some f'
      → fs.read other f' ≡ fs.read other f
  pub read-write_all_still :
      (path bytes : List ℕ) (f : F)
      → fs.read path f ≡ some []
      → (part : List ℕ) × (fs.read path (fs.write_all path bytes f).0 ≡ some part)
  pub read-write_all_other :
      (path other bytes : List ℕ) (f : F)
      → path ≢ other
      → fs.read other (fs.write_all path bytes f).0 ≡ fs.read other f
  pub read-carry_on :
      (path bytes : List ℕ) (f : F)
      → fs.read path f ≡ some bytes
      → (part : List ℕ) × (fs.read path (fs.carry_on f) ≡ some part)
  pub content-create_self :
      (path : List ℕ) (f : F) {f' : F} → fs.create path f ≡ some f' → fs.content path f' ≡ some []
  pub content-create_other :
      (path other : List ℕ) (f : F) {f' : F}
      → path ≢ other
      → fs.create path f ≡ some f'
      → fs.content other f' ≡ fs.content other f
  pub content-write_all_self :
      (path bytes : List ℕ) (f : F)
      → fs.content path f ≡ some []
      → (fs.write_all path bytes f).1 ≡ true
      → fs.content path (fs.write_all path bytes f).0 ≡ some bytes
  pub content-write_all_other :
      (path other bytes : List ℕ) (f : F)
      → path ≢ other
      → fs.content other (fs.write_all path bytes f).0 ≡ fs.content other f
  pub content-carry_on :
      (path : List ℕ) (f : F) → fs.content path (fs.carry_on f) ≡ fs.content path f
  pub read-landed :
      (path : List ℕ) (f : F) → fs.landed path f ≡ true → fs.read path f ≡ fs.content path f
  pub show-injective : {i j : I} → fs.show i ≡ fs.show j → i ≡ j

-- The bytes of the first part with the name that is looked for.
abbrev pub form_bytes : Multipart → Option (List ℕ)
form_bytes ends = none
form_bytes fails = none
form_bytes (field none body rest) = form_bytes rest
form_bytes (field (some name) body rest) =
    let later = form_bytes rest in if string_eq name torrent_file_field then body else later

-- The UUIDs that the uploads draw.
abbrev pub new_ids : {L I : Type 0} → List (Request L I) → List I
new_ids [] = []
new_ids (uploads id form ∷ reqs) = id ∷ new_ids reqs
new_ids (adds id torrent ∷ reqs) = new_ids reqs
new_ids (deletes id ∷ reqs) = new_ids reqs
new_ids (carries_on ∷ reqs) = new_ids reqs

module _ {F I : Type 0} (fs : Files F I) (folder : List ℕ) where
  -- The file of the id is in the set, with the bytes as its content.
  abbrev pub Holds : {A : Type 0} → ⦃same : Eq I⦄ → I → List ℕ → TorrentState A F I → Type 0
  Holds id bytes state =
      (has id state.torrent_files ≡ true)
      × (fs.content (filename fs folder id) state.files ≡ some bytes)

module _ {F I : Type 0} (fs : Files F I) (laws : FilesLaws fs) (folder : List ℕ) where
  pub filename-injective : {i j : I} → filename fs folder i ≡ filename fs folder j → i ≡ j
  unfolding filename
  filename-injective e = laws.show-injective (tail (append_cancel folder e))
    where
      tail : {c : ℕ} {xs ys : List ℕ} → c ∷ xs ≡ c ∷ ys → xs ≡ ys
      tail e = cc

      append_cancel : (front : List ℕ) {xs ys : List ℕ} → front ++ xs ≡ front ++ ys → xs ≡ ys
      append_cancel [] e = e
      append_cancel (c ∷ front) e = append_cancel front (tail e)

module _ {I : Type 0} ⦃same : Eq I⦄ where
  has-later : (id j : I) (ids : List I) → has id ids ≡ true → has id (j ∷ ids) ≡ true
  unfolding has
  has-later id j ids h = elim (Bool-cases (same.beq j id)) [
    | inl hit ↦ rw hit refl
    | inr miss ↦ rw miss h
  ]

module _ {A F I : Type 0} (D E : Type 0) ⦃same : Eq I⦄ (fs : Files F I) (laws : FilesLaws fs)
    (folder : List ℕ) where
  store_file-Holds_other :
      (id j : I) (bytes : List ℕ) (body : Option (List ℕ)) (state : TorrentState A F I)
      → j ≢ id
      → Holds fs folder id bytes state
      → Holds fs folder id bytes (store_file {D = D} {E = E} fs folder j body state).0
  unfolding store_file
  store_file-Holds_other id j bytes body state ne h =
      elim (Option-cases (fs.create (filename fs folder j) state.files)) [
        | inl bad ↦ rw (bad, store_file) (has-later id j state.torrent_files h.0, h.1)
        | inr (created, good) ↦
            let kept : fs.content (filename fs folder id) created ≡ some bytes =
              laws.content-create_other (filename fs folder j) (filename fs folder id) state.files
                apart good
              ∙ h.1 in
            elim (Option-cases body) [
              | inl cut ↦ rw (good, cut, store_file) (has-later id j state.torrent_files h.0, kept)
              | inr (new_bytes, there) ↦
                  rw (good, there, store_file)
                    (
                      has-later id j state.torrent_files h.0,
                      laws.content-write_all_other (filename fs folder j) (filename fs folder id)
                            new_bytes created apart
                          ∙ kept,
                    )
            ]
      ]
    where
      apart : filename fs folder j ≢ filename fs folder id
      apart e = ne (filename-injective fs laws folder e)

  add_torrent_file-Holds_other :
      (id j : I) (bytes : List ℕ) (form : Multipart) (state : TorrentState A F I)
      → j ≢ id
      → Holds fs folder id bytes state
      → Holds fs folder id bytes (add_torrent_file {D = D} {E = E} fs folder j form state).0
  unfolding add_torrent_file
  add_torrent_file-Holds_other id j bytes ends state ne h = h
  add_torrent_file-Holds_other id j bytes fails state ne h = h
  add_torrent_file-Holds_other id j bytes (field none body rest) state ne h =
      add_torrent_file-Holds_other id j bytes rest state ne h
  add_torrent_file-Holds_other id j bytes (field (some name) body rest) state ne h =
      elim (Bool-cases (string_eq name torrent_file_field)) [
        | inl hit ↦ rw (hit, add_torrent_file) (store_file-Holds_other id j bytes body state ne h)
        | inr miss ↦
            rw (miss, add_torrent_file) (add_torrent_file-Holds_other id j bytes rest state ne h)
      ]

  store_file-Holds :
      (id : I) (body : Option (List ℕ)) (state : TorrentState A F I)
      → (store_file {D = D} {E = E} fs folder id body state).1.status ≡ 200
      → (bytes : List ℕ) × (body ≡ some bytes)
        × Holds fs folder id bytes (store_file {D = D} {E = E} fs folder id body state).0
  unfolding store_file
  store_file-Holds id body state h =
      elim (Option-cases (fs.create (filename fs folder id) state.files)) [
        | inl bad ↦
            let no' : ◌≡◌ {A = ℕ} 500 200 = rw (bad, store_file) at h in absurd (omega arith)
        | inr (created, good) ↦ elim (Option-cases body) [
          | inl cut ↦
              let no' : ◌≡◌ {A = ℕ} 500 200 = rw (good, cut, store_file) at h in
              absurd (omega arith)
          | inr (bytes, there) ↦
              elim (Bool-cases (fs.write_all (filename fs folder id) bytes created).1) [
                | inr broken ↦
                    let no' : ◌≡◌ {A = ℕ} 500 200 = rw (good, there, broken, store_file) at h in
                    absurd (omega arith)
                | inl written ↦ (
                  bytes,
                  there,
                  rw (good, there, store_file)
                      (
                        has_self id state.torrent_files,
                        laws.content-write_all_self (filename fs folder id) bytes created
                            (laws.content-create_self (filename fs folder id) state.files good)
                            written,
                      ),
                )
              ]
        ]
      ]

  add_torrent_file-Holds :
      (id : I) (form : Multipart) (state : TorrentState A F I)
      → (add_torrent_file {D = D} {E = E} fs folder id form state).1.status ≡ 200
      → (bytes : List ℕ) × (form_bytes form ≡ some bytes)
        × Holds fs folder id bytes (add_torrent_file {D = D} {E = E} fs folder id form state).0
  unfolding add_torrent_file
  add_torrent_file-Holds id ends state h = absurd (omega arith)
  add_torrent_file-Holds id fails state h = absurd (omega arith)
  add_torrent_file-Holds id (field none body rest) state h = add_torrent_file-Holds id rest state h
  add_torrent_file-Holds id (field (some name) body rest) state h =
      elim (Bool-cases (string_eq name torrent_file_field)) [
        | inl hit ↦
            rw (hit, add_torrent_file)
              (store_file-Holds id body state (rw (hit, add_torrent_file) at h))
        | inr miss ↦
            rw (miss, add_torrent_file)
              (add_torrent_file-Holds id rest state (rw (miss, add_torrent_file) at h))
      ]

module _ {A D P E L F I : Type 0} ⦃same : Eq I⦄ (api : Api A D P E L I) (fs : Files F I)
    (laws : FilesLaws fs) (folder : List ℕ) where
  -- The set and the files stay while a torrent is added.
  add_torrent-Holds :
      (id sub_folder : I) (bytes : List ℕ) (torrent : NewTorrent L I) (state : TorrentState A F I)
      → Holds fs folder id bytes state
      → Holds fs folder id bytes (add_torrent api fs folder sub_folder torrent state).0
  unfolding add_torrent add_to_session
  add_torrent-Holds id sub_folder bytes torrent state h = go torrent.source refl
    where
      go :
          (source : NewTorrentSource I)
          → torrent.source ≡ source
          → Holds fs folder id bytes (add_torrent api fs folder sub_folder torrent state).0
      go (url link) e = rw (e, add_torrent) h
      go (file data_id) e = elim (Bool-cases (has data_id state.torrent_files)) [
        | inr unknown ↦ rw (e, unknown, add_torrent) h
        | inl known ↦ elim (Option-cases (fs.read (filename fs folder data_id) state.files)) [
          | inl gone ↦ rw (e, known, gone, add_torrent) h
          | inr (found, reads) ↦ rw (e, known, reads, add_torrent) h
        ]
      ]

  serve_all-Holds :
      (reqs : List (Request L I)) (id : I) (bytes : List ℕ) (state : TorrentState A F I)
      → All (λ j. j ≢ id) (new_ids reqs)
      → Holds fs folder id bytes state
      → Holds fs folder id bytes (serve_all api fs folder reqs state)
  unfolding serve_all serve delete_torrent
  serve_all-Holds [] id bytes state ne h = h
  serve_all-Holds (adds sub_folder torrent ∷ reqs) id bytes state ne h =
      serve_all-Holds reqs id bytes _ ne (add_torrent-Holds id sub_folder bytes torrent state h)
  serve_all-Holds (deletes torrent_id ∷ reqs) id bytes state ne h =
      serve_all-Holds reqs id bytes _ ne h
  serve_all-Holds (carries_on ∷ reqs) id bytes state ne h =
      serve_all-Holds reqs id bytes _ ne
        (h.0, laws.content-carry_on (filename fs folder id) state.files ∙ h.1)
  serve_all-Holds (uploads j form ∷ reqs) id bytes state ne h =
      serve_all-Holds reqs id bytes _ ne.1
        (add_torrent_file-Holds_other D E fs laws folder id j bytes form state ne.0 h)

  -- After an upload that is answered with its UUID, and any requests, of which no upload draws that
  -- UUID again, and with them so much work of the background that the file of the upload has landed,
  -- a torrent that is added from the UUID is neither refused nor a panic: the session is given the
  -- bytes of the form's first part with the expected name.
  pub add_torrent-add_torrent_file :
      (id sub_folder : I) (form : Multipart) (limits : L) (reqs : List (Request L I))
      (state : TorrentState A F I)
      → (add_torrent_file {D = D} {E = E} fs folder id form state).1.status ≡ 200
      → All (λ j. j ≢ id) (new_ids reqs)
      → fs.landed
          (filename fs folder id)
          (serve_all api fs folder reqs
            (add_torrent_file {D = D} {E = E} fs folder id form state).0).files
        ≡ true
      → let later =
          serve_all api fs folder reqs
            (add_torrent_file {D = D} {E = E} fs folder id form state).0 in
        (bytes : List ℕ) × (form_bytes form ≡ some bytes)
        × (add_torrent api fs folder sub_folder (record { source = file id; limits = limits }) later
            ≡ add_to_session api
                (from_bytes bytes)
                (record { sub_folder = sub_folder; ratelimits = limits })
                later)
  unfolding add_torrent
  add_torrent-add_torrent_file id sub_folder form limits reqs state answered fresh landed =
      let (bytes, sent, holds) = add_torrent_file-Holds D E fs laws folder id form state answered in
      let (known, content) =
        serve_all-Holds reqs id bytes (add_torrent_file {D = D} {E = E} fs folder id form state).0
          fresh holds in
      let reads = laws.read-landed (filename fs folder id) _ landed ∙ content in
      (bytes, sent, rw (known, reads, add_torrent) refl)
