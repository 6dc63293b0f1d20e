-- ===== src/Http/Sample.antt =====
-- Headers as an association list, for tests.
use pvn_project.Base.{
  string_eq_instance, ℕ, ◌≡◌, ◌≢◌, refl, ◌∙◌, inl, inr, Bool-cases, List, [], ◌∷◌, some, lookup,
  insert, remove, lookup-insert, lookup-remove, if◌then◌else◌, string_eq, string_eq_iff,
  to_lowercase,
}
use pvn_project.Http.{Http, HttpLaws, content_encoding_name}

abbrev pub accept_encoding_name : List ℕ
accept_encoding_name = b'a' ∷ b'e' ∷ []

abbrev pub Fields : Type 0
Fields = List (List ℕ × List ℕ)

abbrev pub sample : Http Fields (List ℕ) (List ℕ)
sample = record {
  empty = [];
  get = lookup;
  insert = insert;
  remove = remove;
  parse_name = λ name. some (to_lowercase name);
  parse_value = λ value. some value;
  to_str = λ value. some value;
  accept_encoding = accept_encoding_name;
  content_encoding = content_encoding_name;
}

module _ {A : Type 0} where
  self : (k : List ℕ) (x y : A) → (if string_eq k k then x else y) ≡ x
  self k x y = rw ((string_eq_iff k k).1 refl) refl

  unlike : (k j : List ℕ) (x y : A) → k ≢ j → (if string_eq k j then x else y) ≡ y
  unlike k j x y ne = elim (Bool-cases (string_eq k j)) [
    | inl hit ↦ absurd (ne ((string_eq_iff k j).0 hit))
    | inr miss ↦ rw miss refl
  ]

pub sample_laws : HttpLaws sample
sample_laws = record {
  get-empty = λ k. unfold lookup in refl;
  get-insert_self = λ k v h. lookup-insert k k v h ∙ self k _ _;
  get-insert_other = λ k j v h ne. lookup-insert k j v h ∙ unlike k j _ _ ne;
  get-remove_self = λ k h. lookup-remove k k h ∙ self k _ _;
  get-remove_other = λ k j h ne. lookup-remove k j h ∙ unlike k j _ _ ne;
  parse_name-lowercase = λ name e. cc;
}
