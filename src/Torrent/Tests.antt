-- ===== src/Torrent/Tests.antt =====
-- The theorems on torrents at concrete inputs.
use pvn_project.Base.{
  ℕ, ◌+◌, ◌≡◌, ◌≢◌, refl, ◌∙◌, inl, inr, true, false, Bool-cases, List, [], ◌∷◌, Option, none, some,
  Eq, Bool, ap, if◌then◌else◌, ◌==◌, ==_iff, has, map, arith, string_eq, string_eq_iff,
  string_eq_instance, IsCalm,
}
use pvn_project.Torrent.{
  Api, from_bytes, Files, TorrentState, file, Multipart, ends, field, torrent_file_field,
  add_to_session, add_torrent, store_file, add_torrent_file, Request, uploads, deletes, carries_on,
  serve_all, serve, delete_torrent, filename,
}
use pvn_project.Torrent.Zip.{
  Entry, ZipEntry, directory, file_from_fs, text, parent, directory_name, file_entries, visit,
  zip_entries, build_zip, files_of, files_in, IsOrdered, build_zip-IsOrdered,
}
use pvn_project.Torrent.Uploads.{FilesLaws, form_bytes, add_torrent-add_torrent_file}
use pvn_project.Torrent.Calm.{serve_all-IsCalm}

instance abbrev nat_eq : Eq ℕ
nat_eq = record { beq = λ a b. a == b; beq_iff = ==_iff }

abbrev Contents : Type 0
Contents = List ℕ → Option (List ℕ)

-- What has been written, and what was accepted and is carried out later.
record Disk : Type 0 where
  written : Contents
  wanted : Contents

abbrev put : List ℕ → List ℕ → Contents → Contents
put path bytes c = λ p. if string_eq path p then some bytes else c p

abbrev at_last : Option (List ℕ) → Option (List ℕ) → Option (List ℕ)
at_last written none = written
at_last written (some bytes) = some bytes

abbrev same_bytes : Option (List ℕ) → Option (List ℕ) → Bool
same_bytes (some a) (some b) = string_eq a b
same_bytes _ _ = false

abbrev disk : Files Disk ℕ
disk = record {
  create =
      λ path f. some (record { written = put path [] f.written; wanted = put path [] f.wanted });
  write_all = λ path bytes f. (record f { wanted = put path bytes f.wanted }, true);
  read = λ path f. f.written path;
  carry_on = λ f. record f { written = λ p. at_last (f.written p) (f.wanted p) };
  content = λ path f. at_last (f.written path) (f.wanted path);
  landed = λ path f. same_bytes (f.written path) (at_last (f.written path) (f.wanted path));
  show = λ id. id ∷ [];
}

here : (k v : List ℕ) (c : Contents) → put k v c k ≡ some v
here k v c = rw ((string_eq_iff k k).1 refl) refl

there : (k j v : List ℕ) (c : Contents) → k ≢ j → put k v c j ≡ c j
there k j v c ne = elim (Bool-cases (string_eq k j)) [
  | inl hit ↦ absurd (ne ((string_eq_iff k j).0 hit))
  | inr miss ↦ rw miss refl
]

only : {A : Type 0} {a b : A} → some a ≡ some b → a ≡ b
only e = cc

same_bytes_lem : (a b : Option (List ℕ)) → same_bytes a b ≡ true → a ≡ b
same_bytes_lem (some a) (some b) h = ap some ((string_eq_iff a b).0 h)
same_bytes_lem none b h = cc
same_bytes_lem (some a) none h = cc

at_last_again : (a b : Option (List ℕ)) → at_last (at_last a b) b ≡ at_last a b
at_last_again a none = refl
at_last_again a (some b) = refl

at_last_still :
    (bytes : List ℕ) (a b : Option (List ℕ))
    → a ≡ some bytes
    → (part : List ℕ) × (at_last a b ≡ some part)
at_last_still bytes a none e = (bytes, e)
at_last_still bytes a (some b) e = (b, refl)

disk_laws : FilesLaws disk
disk_laws = record {
  read-create_self = λ path f e. rw⁻¹ (only e) (here path [] f.written);
  read-create_other = λ path other f ne e. rw⁻¹ (only e) (there path other [] f.written ne);
  read-write_all_still = λ path bytes f e. ([], e);
  read-write_all_other = λ path other bytes f ne. refl;
  read-carry_on = λ path bytes f e. at_last_still bytes (f.written path) (f.wanted path) e;
  content-create_self =
      λ path f e. rw⁻¹ (only e) (ap (at_last (put path [] f.written path)) (here path [] f.wanted));
  content-create_other = λ path other f ne e. rw⁻¹ (only e) (
      ap (λ a. at_last a (put path [] f.wanted other)) (there path other [] f.written ne)
      ∙ ap (at_last (f.written other)) (there path other [] f.wanted ne));
  content-write_all_self =
      λ path bytes f e w. ap (at_last (f.written path)) (here path bytes f.wanted);
  content-write_all_other =
      λ path other bytes f ne. ap (at_last (f.written other)) (there path other bytes f.wanted ne);
  content-carry_on = λ path f. at_last_again (f.written path) (f.wanted path);
  read-landed = λ path f h. same_bytes_lem (f.written path) _ h;
  show-injective = λ e. cc;
}

-- The session counts what is added.
abbrev session : Api ℕ ℕ ℕ ℕ ℕ ℕ
session = record {
  torrent_details = λ a id. inr id;
  stats = λ a id. inr a;
  with_stats = λ stats details. stats + details;
  finished = λ stats. true;
  output_folder = λ details. details ∷ [];
  add = λ torrent options a. (a + 1, inr a);
  delete = λ id a. (a, inr id);
  status = λ e. 404;
}

abbrev empty_disk : Disk
empty_disk = record { written = λ p. none; wanted = λ p. none }

abbrev start : TorrentState ℕ Disk ℕ
start = record { api = 0; files = empty_disk; torrent_files = [] }

abbrev form : Multipart
form = field none none (field (some torrent_file_field) (some (1 ∷ 2 ∷ [])) ends)

abbrev between : List (Request ℕ ℕ)
between = uploads 8 form ∷ carries_on ∷ deletes 3 ∷ []

abbrev after_upload : TorrentState ℕ Disk ℕ
after_upload =
    serve_all session disk [] between (add_torrent_file {D = ℕ} {E = ℕ} disk [] 7 form start).0

add_torrent-add_torrent_file_example :
    (bytes : List ℕ) × (form_bytes form ≡ some bytes)
    × (add_torrent session disk [] 9 (record { source = file 7; limits = 0 }) after_upload
        ≡ add_to_session session
            (from_bytes bytes)
            (record { sub_folder = 9; ratelimits = 0 })
            after_upload)
unfolding add_torrent_file store_file serve_all serve delete_torrent filename string_eq
add_torrent-add_torrent_file_example =
    add_torrent-add_torrent_file session disk disk_laws [] 7 9 form 0 between start refl
      ((λ e. omega arith), tt) refl

serve_all-IsCalm_example :
    IsCalm
      (add_torrent session disk [] 9
        (record { source = file 7; limits = 0 })
        (serve_all session disk []
          (uploads 7 form ∷ [])
          (record { api = 0; files = empty_disk; torrent_files = [] }))).1
serve_all-IsCalm_example =
    serve_all-IsCalm session disk disk_laws [] (uploads 7 form ∷ []) 0 empty_disk 9
      (record { source = file 7; limits = 0 }) (λ id f. (_, refl))

-- Two files of one directory, a file at the top, and the directory itself.
abbrev walk : List Entry
walk =
    record { rel_path = []; is_file = false }
    ∷ record { rel_path = (1 ∷ []) ∷ (2 ∷ []) ∷ []; is_file = true }
    ∷ record { rel_path = (1 ∷ []) ∷ (3 ∷ []) ∷ []; is_file = true }
    ∷ record { rel_path = (4 ∷ []) ∷ []; is_file = true }
    ∷ []

zipped :
    zip_entries [] (map some walk)
    ≡ some (
        directory (directory_name (1 ∷ []))
        ∷ file_from_fs
            ((1 ∷ []) ∷ (2 ∷ []) ∷ [])
            (b'f' ∷ b'i' ∷ b'l' ∷ b'e' ∷ b's' ∷ b'/' ∷ 1 ∷ b'/' ∷ 2 ∷ [])
        ∷ file_from_fs
            ((1 ∷ []) ∷ (3 ∷ []) ∷ [])
            (b'f' ∷ b'i' ∷ b'l' ∷ b'e' ∷ b's' ∷ b'/' ∷ 1 ∷ b'/' ∷ 3 ∷ [])
        ∷ directory (directory_name [])
        ∷ file_from_fs ((4 ∷ []) ∷ []) (b'f' ∷ b'i' ∷ b'l' ∷ b'e' ∷ b's' ∷ b'/' ∷ 4 ∷ [])
        ∷ [])
unfolding zip_entries visit file_entries text parent has string_eq
zipped = refl

build_zip-IsOrdered_example :
    (zip : List ZipEntry) × (build_zip (λ folder. map some walk) (λ zip. some []) [] ≡ some [])
    × (files_of zip ≡ files_in walk)
    × IsOrdered [] zip
build_zip-IsOrdered_example =
    build_zip-IsOrdered (λ folder. map some walk) (λ zip. some []) [] walk refl
