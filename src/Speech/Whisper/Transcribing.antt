-- ===== src/Speech/Whisper/Transcribing.antt =====
-- What load_model and run_whisper_full of whisper_backend.cpp return.
use yoru_speech.Common.{
  ℕ, ◌+◌, ◌*◌, ◌/◌, ◌≤◌, ◌<◌, ◌≡◌, refl, ◌⊎◌, inl, inr, true, false, not, Bool-cases, Option,
  Option-cases, none, some, List, [], ◌∷◌, lit, is_empty, length, flatten, has_value, ◌≢◌, arith,
}
use yoru_speech.Core.Event.{model_loaded}
use yoru_speech.Speech.Model.{Model}
use yoru_speech.Speech.Transcript.{
  Transcript, TranscriptionRequest, TranscriptionResult, transcript, speech_error,
}
use yoru_speech.Speech.Whisper.{
  Context, Backend, WhisperCall, ran, Exists, exists_error, missing, present, Inference, FullParams,
  params_of, unload_model, Loaded, load_model, has_model_loaded, run_whisper_full, result_of,
}

-- With an error nothing changes; without one the model is current and announced once.
abbrev pub LoadsOrKeeps : {Sample : Type 0} → Backend → Model → Loaded Sample → Type 0
LoadsOrKeeps b model loaded =
    ((has_value loaded.error ≡ true)
      × (loaded.backend ≡ b)
      × (loaded.calls ≡ [])
      × (loaded.events ≡ []))
    ⊎ ((loaded.error ≡ none)
        × (has_model_loaded loaded.backend ≡ true)
        × (loaded.backend.current_model ≡ some model)
        × (loaded.backend.abort_requested ≡ b.abort_requested)
        × (loaded.events ≡ model_loaded model ∷ []))

-- load_model is all or nothing: with an error the backend is as before, holding the model that it
-- held, whisper.cpp keeps no new context, and nothing is published; without one that model is
-- current, the abort flag is as before, and exactly one model_loaded is published.
pub load_model_lem :
    {Sample : Type 0} (exists : Exists) (ctx : Option Context) (model : Model) (b : Backend)
    → LoadsOrKeeps {Sample = Sample} b model (load_model exists ctx model b)
unfolding load_model unload_model has_model_loaded
load_model_lem (exists_error message) ctx model b = inl (refl, refl, refl, refl)
load_model_lem missing ctx model b = inl (refl, refl, refl, refl)
load_model_lem present none model b = inl (refl, refl, refl, refl)
load_model_lem present (some ctx) model b = elim (Option-cases b.ctx) [
  | inl e ↦ ground (arith, e)
  | inr (old, e) ↦ ground (arith, e)
]

-- A usable language, and a prompt exactly where the request has one.
abbrev pub IsUsable : TranscriptionRequest → FullParams → Type 0
IsUsable request params =
    (params.language ≢ [])
    × (params.detect_language ≡ false)
    × (params.carry_initial_prompt ≡ has_value params.initial_prompt)
    × (has_value params.initial_prompt ≡ not (is_empty request.initial_prompt))

params_of-IsUsable : (request : TranscriptionRequest) → IsUsable request (params_of request)
unfolding params_of lit
params_of-IsUsable request = ground arith

-- A transcript comes from a whisper_full that ran to its end.
abbrev pub Completed :
    {Sample : Type 0}
    → ℕ
    → Inference
    → List Sample
    → TranscriptionRequest
    → Backend
    → Transcript
    → List WhisperCall
    → Type 0
Completed sample_rate answer samples request b t calls =
    (answer.abort_after ≡ false)
    × (answer.succeeded ≡ true)
    × (t.text ≡ flatten answer.segments)
    × (t.requested_language ≡ request.language)
    × (t.audio_duration * sample_rate ≤ length samples * 1000)
    × (length samples * 1000 < (t.audio_duration + 1) * sample_rate)
    × ((ctx : Context) × (b.ctx ≡ some ctx)
        × (calls ≡ ran ctx (params_of request) (length samples) ∷ []))
    × IsUsable request (params_of request)

-- Why there is no transcript.
abbrev pub Failed :
    {Sample : Type 0} → Inference → List Sample → Backend → List WhisperCall → Type 0
Failed answer samples b calls =
    (((samples ≡ []) ⊎ (b.ctx ≡ none)) × (calls ≡ []))
    ⊎ (answer.abort_after ≡ true)
    ⊎ (answer.succeeded ≡ false)

abbrev pub Reports :
    {Sample : Type 0}
    → ℕ
    → Inference
    → List Sample
    → TranscriptionRequest
    → Backend
    → TranscriptionResult
    → List WhisperCall
    → Type 0
Reports sample_rate answer samples request b (transcript t) calls =
    Completed sample_rate answer samples request b t calls
Reports sample_rate answer samples request b (speech_error message) calls =
    Failed answer samples b calls

-- The audio duration is the quotient rounded down.
duration_bounds : (n rate : ℕ) → 0 < rate → (n / rate * rate ≤ n) × (n < (n / rate + 1) * rate)
duration_bounds n rate h = grind arith

result_of-Reports :
    {Sample : Type 0} (sample_rate : ℕ) (answer : Inference) (s : Sample) (samples : List Sample)
    (request : TranscriptionRequest) (b : Backend) (ctx : Context)
    → 0 < sample_rate
    → b.ctx ≡ some ctx
    → Reports sample_rate answer
        (s ∷ samples)
        request
        b
        (result_of sample_rate (length (s ∷ samples)) request answer)
        (ran ctx (params_of request) (length (s ∷ samples)) ∷ [])
unfolding result_of
result_of-Reports sample_rate answer s samples request b ctx pos held =
    elim (Bool-cases answer.abort_after) [
      | inl a ↦ rw a (inr (inl refl))
      | inr a ↦ elim (Bool-cases answer.succeeded) [
        | inr f ↦ rw (a, f) (inr (inr refl))
        | inl ok ↦
            let (below, above) = duration_bounds (length (s ∷ samples) * 1000) sample_rate pos in
            rw (a, ok)
              (refl, refl, refl, refl, below, above, (ctx, held, refl), params_of-IsUsable request)
      ]
    ]

run_loaded :
    {Sample : Type 0} (sample_rate : ℕ) (answer : Inference) (s : Sample) (samples : List Sample)
    (request : TranscriptionRequest) (b : Backend) (ctx : Context)
    → b.ctx ≡ some ctx
    → run_whisper_full sample_rate answer (s ∷ samples) request b ≡ (
      record b { abort_requested = answer.abort_after },
      result_of sample_rate (length (s ∷ samples)) request answer,
      ran ctx (params_of request) (length (s ∷ samples)) ∷ [],
    )
unfolding run_whisper_full
run_loaded sample_rate answer s samples request b ctx h = ground (arith, h)

-- run_whisper_full leaves the model as it is. A transcript means that audio and a model were there,
-- whisper_full was called once, succeeded and was not aborted: it is all of its segments, with the
-- length of the audio in milliseconds rounded down, and the call had a language and a prompt exactly
-- where the request has one. An error means that audio or model was missing, with no call made, or
-- that the call was aborted or failed.
pub run_whisper_full_lem :
    {Sample : Type 0} (sample_rate : ℕ) (answer : Inference) (samples : List Sample)
    (request : TranscriptionRequest) (b : Backend)
    → 0 < sample_rate
    → ((run_whisper_full sample_rate answer samples request b).0.ctx ≡ b.ctx)
      × ((run_whisper_full sample_rate answer samples request b).0.current_model ≡ b.current_model)
      × Reports sample_rate answer samples request b
          (run_whisper_full sample_rate answer samples request b).1
          (run_whisper_full sample_rate answer samples request b).2
unfolding run_whisper_full
run_whisper_full_lem sample_rate answer [] request b pos = (refl, refl, inl (inl refl, refl))
run_whisper_full_lem sample_rate answer (s ∷ samples) request b pos = elim (Option-cases b.ctx) [
  | inl e ↦ rw e (refl, refl, inl (inr refl, refl))
  | inr (ctx, e) ↦
      rw (run_loaded sample_rate answer s samples request b ctx e)
        (refl, refl, result_of-Reports sample_rate answer s samples request b ctx pos e)
]
