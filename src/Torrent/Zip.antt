-- ===== src/Torrent/Zip.antt =====
-- apps/bittorrent_offload/src/routes.rs: the archive of a folder. The walk over the folder and
-- the archive's writer are parameters; a path is its components, which are valid text.
use pvn_project.Base.{
  ℕ, ◌≡◌, refl, ap, ◌∙◌, inl, inr, Bool, true, false, Bool-cases, List, [], ◌∷◌, ◌++◌, Option, none,
  some, if◌then◌else◌, map, string_eq_instance, Option-cases, has, has_self,
}

-- A path below the folder; the folder itself is the empty one.
abbrev pub RelPath : Type 0
RelPath = List (List ℕ)

pub record Entry : Type 0 where
  pub rel_path : RelPath
  pub is_file : Bool

pub data ZipEntry : Type 0 where
  directory : List ℕ → ZipEntry
  file_from_fs : RelPath → List ℕ → ZipEntry

-- `Path::to_string_lossy`
unfoldable pub text : RelPath → List ℕ
text [] = []
text (name ∷ path) = elim path [ [] ↦ name | c ∷ cs ↦ name ++ (b'/' ∷ text path) ]

-- `Path::parent`
unfoldable pub parent : RelPath → Option RelPath
parent [] = none
parent (name ∷ path) = elim (parent path) [ none ↦ some [] | some above ↦ some (name ∷ above) ]

abbrev pub files_prefix : List ℕ
files_prefix = b'f' ∷ b'i' ∷ b'l' ∷ b'e' ∷ b's' ∷ b'/' ∷ []

unfoldable pub directory_name : List ℕ → List ℕ
directory_name name = files_prefix ++ (name ++ (b'/' ∷ []))

-- The entry of a file, behind that of its directory, if there is none of it yet.
unfoldable pub file_entries : List (List ℕ) → RelPath → List (List ℕ) × List ZipEntry
unfolding text parent directory_name has
file_entries dirs rel_path =
    let entry = file_from_fs rel_path (files_prefix ++ text rel_path) in
    elim (parent rel_path) [
      | none ↦ (dirs, entry ∷ [])
      | some above ↦
          if has (text above) dirs
          then (dirs, entry ∷ [])
          else (text above ∷ dirs, directory (directory_name (text above)) ∷ entry ∷ [])
    ]

-- What an entry of the walk adds: nothing, if it is no file.
unfoldable pub visit : List (List ℕ) → Entry → List (List ℕ) × List ZipEntry
unfolding file_entries
visit dirs entry = if entry.is_file then file_entries dirs entry.rel_path else (dirs, [])

-- The loop over the walk; an entry that cannot be read ends it.
unfoldable pub zip_entries : List (List ℕ) → List (Option Entry) → Option (List ZipEntry)
unfolding visit
zip_entries dirs [] = some []
zip_entries dirs (none ∷ entries) = none
zip_entries dirs (some entry ∷ entries) = elim (zip_entries (visit dirs entry).0 entries) [
  | none ↦ none
  | some rest ↦ some ((visit dirs entry).1 ++ rest)
]

-- `write` stands for the archive's writer.
unfoldable pub build_zip :
    (List ℕ → List (Option Entry)) → (List ZipEntry → Option (List ℕ)) → List ℕ → Option (List ℕ)
unfolding zip_entries
build_zip walk write folder_path = elim (zip_entries [] (walk folder_path)) [
  | none ↦ none
  | some entries ↦ write entries
]

-- The files of an archive.
abbrev pub files_of : List ZipEntry → List RelPath
files_of [] = []
files_of (directory name ∷ entries) = files_of entries
files_of (file_from_fs path name ∷ entries) = path ∷ files_of entries

-- The files of a walk that reads all its entries.
abbrev pub files_in : List Entry → List RelPath
files_in [] = []
files_in (entry ∷ entries) =
    let rest = files_in entries in if entry.is_file then entry.rel_path ∷ rest else rest

-- The directory of a file is one of them, if it has one.
abbrev pub IsPlaced : List (List ℕ) → Option RelPath → Type 0
IsPlaced dirs none = Unit
IsPlaced dirs (some above) = has (text above) dirs ≡ true

-- Behind the directories `dirs`: a directory is a new one, named by its path, and a file comes
-- behind its directory and is named by its path.
abbrev pub IsOrdered : List (List ℕ) → List ZipEntry → Type 0
IsOrdered dirs [] = Unit
IsOrdered dirs (directory name ∷ entries) =
    (dir : List ℕ) × (name ≡ directory_name dir)
    × (has dir dirs ≡ false)
    × IsOrdered (dir ∷ dirs) entries
IsOrdered dirs (file_from_fs path name ∷ entries) =
    (name ≡ files_prefix ++ text path) × IsPlaced dirs (parent path) × IsOrdered dirs entries

file_entries-IsOrdered :
    (dirs : List (List ℕ)) (path : RelPath) (zip : List ZipEntry)
    → IsOrdered (file_entries dirs path).0 zip
    → IsOrdered dirs ((file_entries dirs path).1 ++ zip)
unfolding file_entries
file_entries-IsOrdered dirs path zip h = elim (Option-cases (parent path)) [
  | inl top ↦
      let h' : IsOrdered dirs zip = rw (top, file_entries) at h in
      rw (top, file_entries) (refl, rw top tt, h')
  | inr (above, is) ↦ elim (Bool-cases (has (text above) dirs)) [
    | inl old ↦
        let h' : IsOrdered dirs zip = rw (is, old, file_entries) at h in
        rw (is, old, file_entries) (refl, rw is old, h')
    | inr new ↦
        let h' : IsOrdered (text above ∷ dirs) zip = rw (is, new, file_entries) at h in
        rw (is, new, file_entries)
          (text above, refl, new, (refl, rw is (has_self (text above) dirs), h'))
  ]
]

files_of-file_entries :
    (dirs : List (List ℕ)) (path : RelPath) (zip : List ZipEntry)
    → files_of ((file_entries dirs path).1 ++ zip) ≡ path ∷ files_of zip
unfolding file_entries
files_of-file_entries dirs path zip = elim (Option-cases (parent path)) [
  | inl top ↦ rw (top, file_entries) refl
  | inr (above, is) ↦ elim (Bool-cases (has (text above) dirs)) [
    | inl old ↦ rw (is, old, file_entries) refl
    | inr new ↦ rw (is, new, file_entries) refl
  ]
]

visit-IsOrdered :
    (dirs : List (List ℕ)) (entry : Entry) (zip : List ZipEntry)
    → IsOrdered (visit dirs entry).0 zip
    → IsOrdered dirs ((visit dirs entry).1 ++ zip)
unfolding visit
visit-IsOrdered dirs entry zip h = elim (Bool-cases entry.is_file) [
  | inl file ↦ rw file (file_entries-IsOrdered dirs entry.rel_path zip (rw file at h))
  | inr folder ↦ rw folder (rw folder at h)
]

files_of-visit :
    (dirs : List (List ℕ)) (entry : Entry) (entries : List Entry) (zip : List ZipEntry)
    → files_of zip ≡ files_in entries
    → files_of ((visit dirs entry).1 ++ zip) ≡ files_in (entry ∷ entries)
unfolding visit
files_of-visit dirs entry entries zip e = elim (Bool-cases entry.is_file) [
  | inl file ↦
      rw file (files_of-file_entries dirs entry.rel_path zip ∙ ap (λ r. entry.rel_path ∷ r) e)
  | inr folder ↦ rw folder e
]

zip_entries-IsOrdered :
    (entries : List Entry) (dirs : List (List ℕ))
    → (zip : List ZipEntry) × (zip_entries dirs (map some entries) ≡ some zip)
      × (files_of zip ≡ files_in entries)
      × IsOrdered dirs zip
unfolding zip_entries
zip_entries-IsOrdered [] dirs = ([], refl, refl, tt)
zip_entries-IsOrdered (entry ∷ entries) dirs =
    let (zip, made, files, ordered) = zip_entries-IsOrdered entries (visit dirs entry).0 in
    (
      (visit dirs entry).1 ++ zip,
      rw (made, zip_entries) refl,
      files_of-visit dirs entry entries zip files,
      visit-IsOrdered dirs entry zip ordered,
    )

-- Where the walk reads all its entries, the archive is what the writer makes of a list of entries in
-- which each file of the walk stands once, in the walk's order, under its path below `files/`; no
-- directory stands twice; and the directory of each file stands before it.
pub build_zip-IsOrdered :
    (walk : List ℕ → List (Option Entry)) (write : List ZipEntry → Option (List ℕ))
    (folder_path : List ℕ) (entries : List Entry)
    → walk folder_path ≡ map some entries
    → (zip : List ZipEntry) × (build_zip walk write folder_path ≡ write zip)
      × (files_of zip ≡ files_in entries)
      × IsOrdered [] zip
unfolding build_zip
build_zip-IsOrdered walk write folder_path entries e =
    let (zip, made, files, ordered) = zip_entries-IsOrdered entries [] in
    (zip, rw (e, made, build_zip) refl, files, ordered)
