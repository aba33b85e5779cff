-- ===== src/Speech/Repository/Listing.antt =====
-- find_model over list_available_models of model_repository.cpp: which file a name stands for.
use yoru_speech.Common.{
  ◌≡◌, ◌≢◌, refl, sym, ap, ◌∙◌, ◌⊎◌, inl, inr, true, false, Option, none, some, List, [], ◌∷◌, ◌++◌,
  append-nil, append_assoc, Text, lit, text_eq, text_eq_iff, has_value, Bool-cases, Option-cases,
  arith,
}
use mathlib.Core.Path.{subst}
use yoru_speech.Speech.Model.{Model, ModelSize}
use yoru_speech.Speech.Paths.{stem, extension, join_path, to_lower}
use yoru_speech.Speech.Paths.Extensions.{stem-extension, split_bin, stem-ne-nil}
use yoru_speech.Speech.Repository.{
  split_tokens, infer_size, infer_supported_language, Entry, Scan, at_end, increment_failed, entry,
  opened, recognize, push_model, scan_from, list_available_models, find_model,
}

-- A regular file `name`.bin whose tokens tell a size.
pub record IsModelFile (name : Text) (e : Entry) : Type 0 where
  pub named : e.filename ≡ name ++ lit ".bin"
  pub has_name : name ≢ []
  pub regular : e.is_regular_file ≡ true
  pub readable : e.file_type_error ≡ false
  pub sized : has_value (infer_size (split_tokens (to_lower e.filename))) ≡ true

-- What the metadata of a model says of its file.
pub record Describes (directory : Text) (e : Entry) (model : Model) : Type 0 where
  pub size : infer_size (split_tokens (to_lower e.filename)) ≡ some (model.size)
  pub language :
      model.supported_language ≡ infer_supported_language (split_tokens (to_lower e.filename))
  pub path : model.path ≡ join_path directory e.filename
  pub backend : model.backend ≡ lit "whisper.cpp"

-- No file of the scan, up to where it ends, is a model of that name.
abbrev pub HasNone : Text → Scan → Type 0
HasNone name at_end = Unit
HasNone name increment_failed = Unit
HasNone name (entry e rest) = ¬ IsModelFile name e × HasNone name rest

-- The first file that is a model of that name is the one described.
abbrev pub HasFirst : Text → Text → Model → Scan → Type 0
HasFirst directory name model at_end = ⊥
HasFirst directory name model increment_failed = ⊥
HasFirst directory name model (entry e rest) =
    (IsModelFile name e × Describes directory e model)
    ⊎ (¬ IsModelFile name e × HasFirst directory name model rest)

abbrev pub Finds : Text → Text → Scan → Option Model → Type 0
Finds directory name scan none = HasNone name scan
Finds directory name scan (some model) = (model.name ≡ name) × HasFirst directory name model scan

-- What one turn of the loop knows of an entry.
abbrev Recognizes : Text → Entry → Option Model → Type 0
Recognizes directory e none = (name : Text) → ¬ IsModelFile name e
Recognizes directory e (some model) =
    IsModelFile model.name e
    × Describes directory e model
    × ((name : Text) → IsModelFile name e → model.name ≡ name)

stem_of : (name : Text) (e : Entry) → IsModelFile name e → stem e.filename ≡ name
stem_of [] e f = absurd (f.has_name refl)
stem_of (c ∷ cs) e f = rw (f.named) ((split_bin c cs).0)

extension_of :
    (name : Text) (e : Entry)
    → IsModelFile name e
    → text_eq (extension e.filename) (lit ".bin") ≡ true
extension_of [] e f = absurd (f.has_name refl)
extension_of (c ∷ cs) e f =
    (text_eq_iff (extension e.filename) (lit ".bin")).1 (rw (f.named) ((split_bin c cs).1))

filename_of :
    (e : Entry)
    → text_eq (extension e.filename) (lit ".bin") ≡ true
    → e.filename ≡ stem e.filename ++ lit ".bin"
filename_of e h =
    sym (stem-extension e.filename)
    ∙ ap (λ ext. stem e.filename ++ ext) ((text_eq_iff (extension e.filename) (lit ".bin")).0 h)

-- The model that is made of an entry.
metadata : Text → Entry → ModelSize → Model
metadata directory e size = record {
  name = stem e.filename;
  size = size;
  supported_language = infer_supported_language (split_tokens (to_lower e.filename));
  path = join_path directory e.filename;
  backend = lit "whisper.cpp";
}

recognize-eq-some :
    (directory : Text) (e : Entry) (size : ModelSize)
    → text_eq (extension e.filename) (lit ".bin") ≡ true
    → e.is_regular_file ≡ true
    → e.file_type_error ≡ false
    → infer_size (split_tokens (to_lower e.filename)) ≡ some size
    → recognize directory e ≡ some (metadata directory e size)
unfolding recognize metadata
recognize-eq-some directory e size bin reg err sized = rw (bin, reg, err, sized) refl

recognize-eq-none :
    (directory : Text) (e : Entry)
    → (text_eq (extension e.filename) (lit ".bin") ≡ false)
      ⊎ (e.is_regular_file ≡ false)
      ⊎ (e.file_type_error ≡ true)
      ⊎ (infer_size (split_tokens (to_lower e.filename)) ≡ none)
    → recognize directory e ≡ none
unfolding recognize
recognize-eq-none directory e h = ground arith

recognized :
    (directory : Text) (e : Entry) (size : ModelSize)
    → text_eq (extension e.filename) (lit ".bin") ≡ true
    → e.is_regular_file ≡ true
    → e.file_type_error ≡ false
    → infer_size (split_tokens (to_lower e.filename)) ≡ some size
    → Recognizes directory e (some (metadata directory e size))
unfolding metadata
recognized directory e size bin reg err sized = (
  record {
    named = filename_of e bin;
    has_name = stem-ne-nil e.filename ((text_eq_iff (extension e.filename) (lit ".bin")).0 bin);
    regular = reg;
    readable = err;
    sized = ground (arith, sized);
  },
  record { size = sized; language = refl; path = refl; backend = refl },
  λ name f. stem_of name e f,
)

recognize_lem : (directory : Text) (e : Entry) → Recognizes directory e (recognize directory e)
recognize_lem directory e = elim (Bool-cases (text_eq (extension e.filename) (lit ".bin"))) [
  | inr bin ↦ skip (inl bin) (λ name f. ground (arith, extension_of name e f))
  | inl bin ↦ elim (Bool-cases e.is_regular_file) [
    | inr reg ↦ skip (inr (inl reg)) (λ name f. ground (arith, f.regular))
    | inl reg ↦ elim (Bool-cases e.file_type_error) [
      | inl err ↦ skip (inr (inr (inl err))) (λ name f. ground (arith, f.readable))
      | inr err ↦ elim (Option-cases (infer_size (split_tokens (to_lower e.filename)))) [
        | inl unsized ↦ skip (inr (inr (inr unsized))) (λ name f. ground (arith, f.sized))
        | inr (size, sized) ↦
            rw (recognize-eq-some directory e size bin reg err sized)
              (recognized directory e size bin reg err sized)
      ]
    ]
  ]
]
  where
    skip :
        (text_eq (extension e.filename) (lit ".bin") ≡ false)
          ⊎ (e.is_regular_file ≡ false)
          ⊎ (e.file_type_error ≡ true)
          ⊎ (infer_size (split_tokens (to_lower e.filename)) ≡ none)
        → ((name : Text) → ¬ IsModelFile name e)
        → Recognizes directory e (recognize directory e)
    skip h never = rw (recognize-eq-none directory e h) never

-- The models of a scan, without the vector that they are pushed on.
listed : Text → Scan → List Model
unfolding push_model
listed directory at_end = []
listed directory increment_failed = []
listed directory (entry e rest) = push_model [] (recognize directory e) ++ listed directory rest

push_model_lem :
    (models : List Model) (model : Option Model)
    → push_model models model ≡ models ++ push_model [] model
unfolding push_model
push_model_lem models none = sym (append-nil models)
push_model_lem models (some model) = refl

scan_from_lem :
    (directory : Text) (models : List Model) (scan : Scan)
    → scan_from directory models scan ≡ models ++ listed directory scan
unfolding scan_from listed
scan_from_lem directory models at_end = sym (append-nil models)
scan_from_lem directory models increment_failed = sym (append-nil models)
scan_from_lem directory models (entry e rest) =
    scan_from_lem directory (push_model models (recognize directory e)) rest
    ∙ rw (push_model_lem models (recognize directory e))
        (append_assoc models (push_model [] (recognize directory e)) (listed directory rest))

find_later :
    (directory name : Text) (e : Entry) (rest : Scan) (result : Option Model)
    → ¬ IsModelFile name e
    → Finds directory name rest result
    → Finds directory name (entry e rest) result
find_later directory name e rest none skipped found = (skipped, found)
find_later directory name e rest (some model) skipped found = (found.0, inr (skipped, found.1))

find_first :
    (directory name : Text) (e : Entry) (rest : Scan) (model : Option Model)
    → Recognizes directory e model
    → Finds directory name rest (find_model (listed directory rest) name)
    → Finds directory name
        (entry e rest)
        (find_model (push_model [] model ++ listed directory rest) name)
unfolding push_model find_model
find_first directory name e rest none known found =
    find_later directory name e rest (find_model (listed directory rest) name) (known name) found
find_first directory name e rest (some model) known found =
    elim (Bool-cases (text_eq model.name name)) [
      | inl h ↦
          let same : model.name ≡ name = (text_eq_iff model.name name).0 h in
          rw h (same, inl (subst (λ n. IsModelFile n e) same known.0, known.1))
      | inr h ↦ rw h (
          find_later directory name e rest (find_model (listed directory rest) name)
            (λ f. ground (arith, (text_eq_iff model.name name).1 (known.2 name f), h)) found)
    ]

find_listed :
    (directory name : Text) (scan : Scan)
    → Finds directory name scan (find_model (listed directory scan) name)
unfolding listed find_model
find_listed directory name at_end = tt
find_listed directory name increment_failed = tt
find_listed directory name (entry e rest) =
    find_first directory name e rest (recognize directory e) (recognize_lem directory e)
      (find_listed directory name rest)

-- Looking a name up among the listed models finds the first regular file of the scan, up to its end
-- or its failure, that is called `name`.bin and whose tokens tell a size, with the size and the
-- language of its tokens and its path; it finds nothing when there is no such file.
pub find_model-list_available_models :
    (directory name : Text) (scan : Scan)
    → Finds directory name scan (find_model (list_available_models directory (opened scan)) name)
unfolding list_available_models
find_model-list_available_models directory name scan =
    rw (scan_from_lem directory [] scan) (find_listed directory name scan)
