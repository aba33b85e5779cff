-- ===== src/Speech/Examples.antt =====
-- Runs of the model repository and of the whisper.cpp backend at concrete inputs.
use yoru_speech.Common.{
  ℕ, ◌≡◌, refl, true, false, List, [], ◌∷◌, none, some, Text, lit, text_eq, arith,
}
use yoru_speech.Speech.Model.{Model, base}
use yoru_speech.Speech.Transcript.{TranscriptionRequest}
use yoru_speech.Speech.Paths.{to_lower, lower_char}
use yoru_speech.Speech.Repository.{
  Entry, Scan, increment_failed, entry, opened, is_delimiter, size_token, split_tokens, infer_size,
  list_available_models, find_model,
}
use yoru_speech.Speech.Repository.Tokens.{pieces, non_empty, AllTokens, split_tokens_lem}
use yoru_speech.Speech.Repository.Listing.{Finds, find_model-list_available_models}
use yoru_speech.Speech.Whisper.{Backend, present, missing, Inference, create, run_whisper_full}
use yoru_speech.Speech.Whisper.Contexts.{
  Action, loads, transcribes, requests_abort, run, after_calls, held, IsSynced, all_calls,
  run-create-IsFreed,
}
use yoru_speech.Speech.Whisper.Transcribing.{Reports, run_whisper_full_lem}

abbrev file_name : Text
file_name = lit "GGML-tiny.en-q5_1.bin"

tokens_run :
    split_tokens (to_lower file_name)
    ≡ lit "ggml" ∷ lit "tiny" ∷ lit "en" ∷ lit "q5" ∷ lit "1" ∷ lit "bin" ∷ []
unfolding split_tokens to_lower lit is_delimiter lower_char
tokens_run = refl

-- "base" is no token of "database".
no_size_run : infer_size (split_tokens (lit "notes-database.bin")) ≡ none
unfolding infer_size split_tokens lit is_delimiter size_token text_eq
no_size_run = refl

split_tokens_example :
    (split_tokens file_name ≡ non_empty (pieces file_name)) × AllTokens (split_tokens file_name)
split_tokens_example = split_tokens_lem file_name

abbrev file : Text → Entry
file name = record { filename = name; is_regular_file = true; file_type_error = false }

abbrev scan : Scan
scan = entry (file (lit "readme.txt")) (
    entry (file (lit "notes-database.bin"))
      (entry (file (lit "ggml-tiny.en.bin")) increment_failed))

find_model-list_available_models_example :
    Finds
      (lit "/models")
      (lit "ggml-tiny.en")
      scan
      (find_model (list_available_models (lit "/models") (opened scan)) (lit "ggml-tiny.en"))
find_model-list_available_models_example =
    find_model-list_available_models (lit "/models") (lit "ggml-tiny.en") scan

abbrev model : Model
model = record {
  name = lit "ggml-base";
  size = base;
  supported_language = lit "multi";
  path = lit "/models/ggml-base.bin";
  backend = lit "whisper.cpp";
}

abbrev answer : Inference
answer = record {
  succeeded = true;
  abort_after = false;
  segments = lit " hello" ∷ lit " world" ∷ [];
  lang_id = some 0;
  lang_str = λ id. some (lit "en");
  elapsed = 40;
}

abbrev request : TranscriptionRequest
request = record { language = lit "auto"; initial_prompt = lit "" }

abbrev samples : List ℕ
samples = 1 ∷ 2 ∷ []

abbrev loaded : Backend
loaded = record { ctx = some 7; abort_requested = false; current_model = some model }

run_whisper_full_example :
    ((run_whisper_full 16000 answer samples request loaded).0.ctx ≡ some 7)
    × ((run_whisper_full 16000 answer samples request loaded).0.current_model ≡ some model)
    × Reports 16000 answer samples request loaded
        (run_whisper_full 16000 answer samples request loaded).1
        (run_whisper_full 16000 answer samples request loaded).2
run_whisper_full_example = run_whisper_full_lem 16000 answer samples request loaded (omega arith)

-- Two models one after the other, a failure, and a transcription in between.
abbrev actions : List (Action ℕ)
actions =
    loads present (some 7) model
    ∷ loads missing none model
    ∷ transcribes answer samples request
    ∷ requests_abort
    ∷ loads present (some 8) model
    ∷ []

run-create-IsFreed_example :
    (after_calls [] (run 16000 create actions).1 ≡ some (held (run 16000 create actions).0.ctx))
    × (IsSynced (run 16000 create actions).0)
    × (after_calls [] (all_calls (run 16000 create actions)) ≡ some [])
run-create-IsFreed_example = run-create-IsFreed 16000 actions
