-- ===== src/Speech/Whisper.antt =====
-- domains/speech/whisper_backend.cpp: WhisperBackend. whisper.cpp and the file system are arguments:
-- what they answer to each call, and the calls that the backend makes of whisper.cpp are recorded.
pub mod Contexts
pub mod Transcribing
use yoru_speech.Common.{
  ℕ, ◌*◌, ◌/◌, Bool, true, false, ◌||◌, not, Option, none, some, List, [], ◌∷◌, ◌++◌, Text, lit,
  text_eq, is_empty, length, flatten, has_value, if◌then◌else◌,
}
use yoru_speech.Core.Event.{Event, model_loaded}
use yoru_speech.Speech.Model.{Model}
use yoru_speech.Speech.Transcript.{
  TranscriptionRequest, TranscriptionResult, transcript, speech_error,
}

-- A whisper_context pointer that is not null.
abbrev pub Context : Type 0
Context = ℕ

pub record Backend : Type 0 where
  pub ctx : Option Context
  pub abort_requested : Bool
  pub current_model : Option Model

-- The fields of whisper_full_params that are set from the request.
pub record FullParams : Type 0 where
  pub language : Text
  pub detect_language : Bool
  pub initial_prompt : Option Text
  pub carry_initial_prompt : Bool

pub data WhisperCall : Type 0 where
  -- whisper_init_from_file_with_params that did not return null.
  initialised : Context → WhisperCall
  freed : Context → WhisperCall
  -- whisper_full over that many samples, before their number is cast to an int.
  ran : Context → FullParams → ℕ → WhisperCall

-- What std::filesystem::exists answers; an error is its message.
pub data Exists : Type 0 where
  exists_error : Text → Exists
  missing : Exists
  present : Exists

-- What whisper.cpp answers to whisper_full and about its result. The abort flag is read again after
-- the call, since request_abort may have come from another thread meanwhile.
pub record Inference : Type 0 where
  -- whisper_full returned 0.
  pub succeeded : Bool
  pub abort_after : Bool
  pub segments : List Text
  -- whisper_full_lang_id, where `none` is a negative id, and whisper_lang_str of it.
  pub lang_id : Option ℕ
  pub lang_str : ℕ → Option Text
  pub elapsed : ℕ

unfoldable pub create : Backend
create = record { ctx = none; abort_requested = false; current_model = none }

unfoldable pub unload_model : Backend → Backend × List WhisperCall
unload_model b = elim (b.ctx) [
  | none ↦ (b, [])
  | some ctx ↦ (record b { ctx = none; current_model = none }, freed ctx ∷ [])
]

-- What load_model returns, in one record.
pub record Loaded (Sample : Type 0) : Type 0 where
  pub backend : Backend
  pub error : Option Text
  pub calls : List WhisperCall
  pub events : List (Event Sample)

rejected : {Sample : Type 0} → Backend → Text → Loaded Sample
rejected b message = record { backend = b; error = some message; calls = []; events = [] }

replaced : {Sample : Type 0} → Model → Context → Backend → Loaded Sample
unfolding unload_model
replaced model ctx b =
    let (b', calls) = unload_model b in
    record {
      backend = record b' { ctx = some ctx; current_model = some model };
      error = none;
      calls = initialised ctx ∷ calls;
      events = model_loaded model ∷ [];
    }

unfoldable pub load_model :
    {Sample : Type 0} → Exists → Option Context → Model → Backend → Loaded Sample
unfolding rejected replaced
load_model (exists_error message) ctx model b =
    rejected b (lit "failed to check model file: " ++ message)
load_model missing ctx model b = rejected b (lit "model file not found: " ++ model.path)
load_model present none model b = rejected b (lit "failed to load model: " ++ model.path)
load_model present (some ctx) model b = replaced model ctx b

unfoldable pub request_abort : Backend → Backend
request_abort b = record b { abort_requested = true }

unfoldable pub clear_abort : Backend → Backend
clear_abort b = record b { abort_requested = false }

unfoldable pub has_model_loaded : Backend → Bool
has_model_loaded b = has_value b.ctx

unfoldable pub params_of : TranscriptionRequest → FullParams
params_of request =
    let auto_detect = is_empty request.language || text_eq request.language (lit "auto") in
    let has_prompt = not (is_empty request.initial_prompt) in
    record {
      language = if auto_detect then lit "auto" else request.language;
      detect_language = false;
      initial_prompt = if has_prompt then some (request.initial_prompt) else none;
      carry_initial_prompt = has_prompt;
    }

text_of : Option Text → Text
text_of none = []
text_of (some text) = text

detected : Inference → Text
unfolding text_of
detected answer = elim (answer.lang_id) [
  | none ↦ text_of none
  | some id ↦ text_of (answer.lang_str id)
]

-- What is made of a finished whisper_full; the product is one of std::int64_t.
result_of : ℕ → ℕ → TranscriptionRequest → Inference → TranscriptionResult
unfolding detected
result_of sample_rate samples request answer =
    if answer.abort_after
    then speech_error (lit "transcription aborted")
    else if not (answer.succeeded)
    then speech_error (lit "whisper_full failed internally")
    else transcript (record {
      text = flatten answer.segments;
      detected_language = detected answer;
      requested_language = request.language;
      audio_duration = samples * 1000 / sample_rate;
      processing_time = answer.elapsed;
    })

-- `sample_rate` is WHISPER_SAMPLE_RATE of whisper.h. Where whisper_full is called, the abort flag is
-- afterwards what other threads have made of it.
unfoldable pub run_whisper_full :
    {Sample : Type 0}
    → ℕ
    → Inference
    → List Sample
    → TranscriptionRequest
    → Backend
    → Backend × TranscriptionResult × List WhisperCall
unfolding result_of params_of
run_whisper_full sample_rate answer [] request b = (b, speech_error (lit "empty audio buffer"), [])
run_whisper_full sample_rate answer (s ∷ samples) request b = elim (b.ctx) [
  | none ↦ (b, speech_error (lit "no model loaded"), [])
  | some ctx ↦ (
    record b { abort_requested = answer.abort_after },
    result_of sample_rate (length (s ∷ samples)) request answer,
    ran ctx (params_of request) (length (s ∷ samples)) ∷ [],
  )
]

-- The session id is not used. transcribe_partial is the same call.
unfoldable pub transcribe :
    {Sample : Type 0}
    → ℕ
    → Inference
    → ℕ
    → List Sample
    → TranscriptionRequest
    → Backend
    → Backend × TranscriptionResult × List WhisperCall
transcribe sample_rate answer session_id samples request b =
    run_whisper_full sample_rate answer samples request b

unfoldable pub transcribe_partial :
    {Sample : Type 0}
    → ℕ
    → Inference
    → List Sample
    → TranscriptionRequest
    → Backend
    → Backend × TranscriptionResult × List WhisperCall
transcribe_partial sample_rate answer window request b =
    run_whisper_full sample_rate answer window request b

-- The destructor.
unfoldable pub destroy : Backend → Backend × List WhisperCall
destroy b = unload_model b
