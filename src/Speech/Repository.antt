-- ===== src/Speech/Repository.antt =====
-- domains/speech/model_repository.cpp: the model files of a directory. What the directory iteration
-- and is_regular_file answer are arguments, and so are the environment variables.
pub mod Tokens
pub mod Listing
use yoru_speech.Common.{
  ℕ, ◌==◌, Bool, true, false, ◌||◌, Option, none, some, List, [], ◌∷◌, ◌++◌, Text, lit, text_eq,
  if◌then◌else◌,
}
use yoru_speech.Speech.Model.{Model, ModelSize, tiny, base, small, medium, large}
use yoru_speech.Speech.Paths.{stem, extension, join_path, to_lower}

-- The delimiters '-', '.' and '_'.
unfoldable pub is_delimiter : ℕ → Bool
is_delimiter c = c == 45 || c == 46 || c == 95

push_token : List Text → Text → List Text
push_token tokens [] = tokens
push_token tokens (c ∷ cs) = tokens ++ (c ∷ cs) ∷ []

-- The loop of split_tokens: `current` is cleared at a delimiter, where it is empty or pushed.
split_loop : List Text → Text → Text → List Text
unfolding push_token
split_loop tokens current [] = push_token tokens current
split_loop tokens current (c ∷ cs) =
    let ended = split_loop (push_token tokens current) [] cs in
    let longer = split_loop tokens (current ++ c ∷ []) cs in
    if is_delimiter c then ended else longer

unfoldable pub split_tokens : Text → List Text
unfolding split_loop
split_tokens lower_filename = split_loop [] [] lower_filename

unfoldable pub size_token : Text → Option ModelSize
size_token token =
    if text_eq token (lit "tiny")
    then some tiny
    else if text_eq token (lit "base")
    then some base
    else if text_eq token (lit "small")
    then some small
    else if text_eq token (lit "medium")
    then some medium
    else (if text_eq token (lit "large") then some large else none)

unfoldable pub infer_size : List Text → Option ModelSize
infer_size [] = none
infer_size (token ∷ tokens) = elim (size_token token) [
  | some size ↦ some size
  | none ↦ infer_size tokens
]

-- std::find
has_token : Text → List Text → Bool
has_token wanted [] = false
has_token wanted (token ∷ tokens) = text_eq token wanted || has_token wanted tokens

unfoldable pub infer_supported_language : List Text → Text
unfolding has_token
infer_supported_language tokens = if has_token (lit "en") tokens then lit "en" else lit "multi"

-- A directory entry, with what is_regular_file answers for it.
pub record Entry : Type 0 where
  pub filename : Text
  pub is_regular_file : Bool
  pub file_type_error : Bool

-- What the iterator yields until it is the end iterator, or until increment fails.
pub data Scan : Type 0 where
  at_end : Scan
  increment_failed : Scan
  entry : Entry → Scan → Scan

pub data Opened : Type 0 where
  not_opened : Opened
  opened : Scan → Opened

-- The body of the loop: no model for an entry that is skipped.
unfoldable pub recognize : Text → Entry → Option Model
recognize directory e =
    let tokens = split_tokens (to_lower e.filename) in
    let recognized : Option Model = elim (infer_size tokens) [
      | none ↦ none
      | some size ↦ some (record {
        name = stem e.filename;
        size = size;
        supported_language = infer_supported_language tokens;
        path = join_path directory e.filename;
        backend = lit "whisper.cpp";
      })
    ] in
    if text_eq (extension e.filename) (lit ".bin")
    then (if e.is_regular_file then (if e.file_type_error then none else recognized) else none)
    else none

push_model : List Model → Option Model → List Model
push_model models none = models
push_model models (some model) = models ++ model ∷ []

scan_from : Text → List Model → Scan → List Model
unfolding push_model
scan_from directory models at_end = models
scan_from directory models increment_failed = models
scan_from directory models (entry e rest) =
    scan_from directory (push_model models (recognize directory e)) rest

unfoldable pub list_available_models : Text → Opened → List Model
unfolding scan_from
list_available_models directory not_opened = []
list_available_models directory (opened scan) = scan_from directory [] scan

unfoldable pub find_model : List Model → Text → Option Model
find_model [] name = none
find_model (model ∷ available) name =
    let later = find_model available name in if text_eq (model.name) name then some model else later

-- getenv("XDG_DATA_HOME") and getenv("HOME").
home_directory : Option Text → Text
home_directory none = []
home_directory (some home) = home

unfoldable pub default_models_path : Option Text → Option Text → Text
unfolding home_directory
default_models_path (some xdg_data_home) home =
    join_path (join_path xdg_data_home (lit "yoru-speech")) (lit "models")
default_models_path none home =
    let base = join_path (join_path (home_directory home) (lit ".local")) (lit "share") in
    join_path (join_path base (lit "yoru-speech")) (lit "models")
