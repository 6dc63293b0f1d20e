-- ===== src/Torrent/Calm.antt =====
-- Whether a torrent can be added from an id without a panic.
use pvn_project.Base.{
  ℕ, ◌≡◌, ◌≢◌, refl, subst, ◌∙◌, inl, inr, true, false, Bool-cases, List, [], ◌∷◌, Option, none,
  some, Option-cases, All, map-All, Eq, has, string_eq, IsCalm, done-IsCalm,
}
use pvn_project.Torrent.{
  Api, Files, TorrentState, NewTorrentSource, url, file, NewTorrent, Multipart, ends, fails, field,
  torrent_file_field, add_to_session, filename, add_torrent, store_file, add_torrent_file,
  delete_torrent, Request, adds, uploads, deletes, carries_on, serve, serve_all,
}
use pvn_project.Torrent.Uploads.{FilesLaws, filename-injective}

module _ {F I : Type 0} (fs : Files F I) (folder : List ℕ) where
  abbrev pub HasFile : F → I → Type 0
  HasFile f id = (bytes : List ℕ) × (fs.read (filename fs folder id) f ≡ some bytes)

  -- Each id in the set has a file.
  abbrev pub HasFiles : {A : Type 0} → TorrentState A F I → Type 0
  HasFiles state = All (λ id. HasFile state.files id) state.torrent_files

  -- A file can be created under each id's name.
  abbrev pub CanCreate : Type 0
  CanCreate = (id : I) (f : F) → (f' : F) × (fs.create (filename fs folder id) f ≡ some f')

module _ {I : Type 0} ⦃same : Eq I⦄ (P : I → Type 0) where
  has-All : (id : I) (ids : List I) → has id ids ≡ true → All P ids → P id
  unfolding has
  has-All id [] h k = cc
  has-All id (j ∷ ids) h k = elim (Bool-cases (same.beq j id)) [
    | inl hit ↦ subst P ((same.beq_iff j id).0 hit) k.0
    | inr miss ↦ has-All id ids (rw miss at h) k.1
  ]

module _ {A F I : Type 0} (D E : Type 0) ⦃same : Eq I⦄ (fs : Files F I) (laws : FilesLaws fs)
    (folder : List ℕ) (can_create : CanCreate fs folder) where
  store_file-HasFiles :
      (j : I) (body : Option (List ℕ)) (state : TorrentState A F I)
      → HasFiles fs folder state
      → HasFiles fs folder (store_file {D = D} {E = E} fs folder j body state).0
  unfolding store_file
  store_file-HasFiles j body state h =
      let (created, good) = can_create j state.files in
      let empty = laws.read-create_self (filename fs folder j) state.files good in
      elim (Option-cases body) [
        | inl cut ↦
            rw (good, cut, store_file)
              (
                ([], empty),
                map-All _ _ state.torrent_files
                    (λ id k.
                      split id created ([], empty)
                        (λ apart. (
                          k.0,
                          laws.read-create_other (filename fs folder j) (filename fs folder id)
                                state.files apart good
                              ∙ k.1,
                        )))
                    h,
              )
        | inr (bytes, there) ↦
            let written = laws.read-write_all_still (filename fs folder j) bytes created empty in
            rw (good, there, store_file)
              (
                written,
                map-All _ _ state.torrent_files
                    (λ id k. split id _ written (λ apart. (
                      k.0,
                      laws.read-write_all_other (filename fs folder j) (filename fs folder id) bytes
                            created apart
                          ∙ laws.read-create_other (filename fs folder j) (filename fs folder id)
                              state.files apart good
                          ∙ k.1,
                    )))
                    h,
              )
      ]
    where
      split :
          (id : I) (f : F)
          → HasFile fs folder f j
          → (filename fs folder j ≢ filename fs folder id → HasFile fs folder f id)
          → HasFile fs folder f id
      split id f here other = elim (Bool-cases (same.beq j id)) [
        | inl hit ↦ subst (HasFile fs folder f) ((same.beq_iff j id).0 hit) here
        | inr miss ↦
            other (λ e. differs ((same.beq_iff j id).1 (filename-injective fs laws folder e)) miss)
      ]
        where
          differs : same.beq j id ≡ true → same.beq j id ≡ false → ⊥
          differs x y = cc

  add_torrent_file-HasFiles :
      (j : I) (form : Multipart) (state : TorrentState A F I)
      → HasFiles fs folder state
      → HasFiles fs folder (add_torrent_file {D = D} {E = E} fs folder j form state).0
  unfolding add_torrent_file
  add_torrent_file-HasFiles j ends state h = h
  add_torrent_file-HasFiles j fails state h = h
  add_torrent_file-HasFiles j (field none body rest) state h =
      add_torrent_file-HasFiles j rest state h
  add_torrent_file-HasFiles j (field (some name) body rest) state h =
      elim (Bool-cases (string_eq name torrent_file_field)) [
        | inl hit ↦ rw (hit, add_torrent_file) (store_file-HasFiles j body state h)
        | inr miss ↦ rw (miss, add_torrent_file) (add_torrent_file-HasFiles j rest state h)
      ]

module _ {A D P E L F I : Type 0} ⦃same : Eq I⦄ (api : Api A D P E L I) (fs : Files F I)
    (laws : FilesLaws fs) (folder : List ℕ) where
  -- With a file for each id, the answer is there, and the files stay.
  add_torrent-HasFiles :
      (sub_folder : I) (torrent : NewTorrent L I) (state : TorrentState A F I)
      → HasFiles fs folder state
      → IsCalm (add_torrent api fs folder sub_folder torrent state).1
        × HasFiles fs folder (add_torrent api fs folder sub_folder torrent state).0
  unfolding add_torrent add_to_session
  add_torrent-HasFiles sub_folder torrent state h = go torrent.source refl
    where
      go :
          (source : NewTorrentSource I)
          → torrent.source ≡ source
          → IsCalm (add_torrent api fs folder sub_folder torrent state).1
            × HasFiles fs folder (add_torrent api fs folder sub_folder torrent state).0
      go (url link) e = rw (e, add_torrent) (done-IsCalm _, h)
      go (file id) e = elim (Bool-cases (has id state.torrent_files)) [
        | inr unknown ↦ rw (e, unknown, add_torrent) (done-IsCalm _, h)
        | inl known ↦
            let (bytes, reads) =
              has-All (HasFile fs folder state.files) id state.torrent_files known h in
            rw (e, known, reads, add_torrent) (done-IsCalm _, h)
      ]

  serve_all-HasFiles :
      (reqs : List (Request L I)) (state : TorrentState A F I)
      → CanCreate fs folder
      → HasFiles fs folder state
      → HasFiles fs folder (serve_all api fs folder reqs state)
  unfolding serve_all serve delete_torrent
  serve_all-HasFiles [] state can h = h
  serve_all-HasFiles (adds sub_folder torrent ∷ reqs) state can h =
      serve_all-HasFiles reqs _ can (add_torrent-HasFiles sub_folder torrent state h).1
  serve_all-HasFiles (deletes id ∷ reqs) state can h = serve_all-HasFiles reqs _ can h
  serve_all-HasFiles (carries_on ∷ reqs) state can h = serve_all-HasFiles reqs _ can (
      map-All _ _ state.torrent_files
        (λ id k. laws.read-carry_on (filename fs folder id) k.0 state.files k.1) h)
  serve_all-HasFiles (uploads j form ∷ reqs) state can h =
      serve_all-HasFiles reqs _ can
        (add_torrent_file-HasFiles D E fs laws folder can j form state h)

  -- Where a file can always be created, no request to add a torrent panics, whatever requests came
  -- before it, uploads that were cut off or whose bytes could not be written among them.
  pub serve_all-IsCalm :
      (reqs : List (Request L I)) (session : A) (files : F) (sub_folder : I)
      (torrent : NewTorrent L I)
      → CanCreate fs folder
      → IsCalm
          (add_torrent api fs folder sub_folder torrent (
            serve_all api fs folder reqs
              (record { api = session; files = files; torrent_files = [] }))).1
  serve_all-IsCalm reqs session files sub_folder torrent can =
      (add_torrent-HasFiles sub_folder torrent _ (serve_all-HasFiles reqs _ can tt)).0
