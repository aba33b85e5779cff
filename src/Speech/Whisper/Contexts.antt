-- ===== src/Speech/Whisper/Contexts.antt =====
-- The whisper_context that whisper_backend.cpp holds: which are live after the calls it makes.
use yoru_speech.Common.{
  ℕ, ◌≡◌, refl, ◌∙◌, ◌==◌, Bool, inl, inr, false, ◌||◌, Option, none, some, List, [], ◌∷◌, ◌++◌,
  has_value, Option-cases, if◌then◌else◌, arith,
}
use yoru_speech.Speech.Model.{Model}
use yoru_speech.Speech.Transcript.{TranscriptionRequest}
use yoru_speech.Speech.Whisper.{
  Context, Backend, WhisperCall, initialised, freed, ran, Exists, exists_error, missing, present,
  Inference, create, unload_model, Loaded, load_model, request_abort, clear_abort, has_model_loaded,
  run_whisper_full, destroy,
}

-- The calls of the methods, and what is answered to them.
pub data Action (Sample : Type 0) : Type 0 where
  loads : Exists → Option Context → Model → Action Sample
  unloads : Action Sample
  transcribes : Inference → List Sample → TranscriptionRequest → Action Sample
  requests_abort : Action Sample
  clears_abort : Action Sample

without : Context → List Context → Option (List Context)
without ctx [] = none
without ctx (c ∷ live) =
    let later : Option (List Context) = elim (without ctx live) [
      | none ↦ none
      | some rest ↦ some (c ∷ rest)
    ] in
    if c == ctx then some live else later

is_live : Context → List Context → Bool
is_live ctx [] = false
is_live ctx (c ∷ live) = c == ctx || is_live ctx live

-- What is live after a call, as often as it was initialised; `none` is a use or a release of a
-- context that is not live.
unfoldable pub after_call : List Context → WhisperCall → Option (List Context)
unfolding without is_live
after_call live (initialised ctx) = some (ctx ∷ live)
after_call live (freed ctx) = without ctx live
after_call live (ran ctx params samples) = if is_live ctx live then some live else none

continue : Option (List Context) → (List Context → Option (List Context)) → Option (List Context)
continue none f = none
continue (some live) f = f live

unfoldable pub after_calls : List Context → List WhisperCall → Option (List Context)
unfolding continue
after_calls live [] = some live
after_calls live (call ∷ calls) = continue (after_call live call) (λ l. after_calls l calls)

after_calls-append :
    (live : List Context) (calls later : List WhisperCall) (l : List Context)
    → after_calls live calls ≡ some l
    → after_calls live (calls ++ later) ≡ after_calls l later
unfolding after_calls
after_calls-append live [] later l h = ground (arith, h)
after_calls-append live (call ∷ calls) later l h = elim (Option-cases (after_call live call)) [
  | inl e ↦ ground (arith, h, e)
  | inr (x, e) ↦ ground (arith, h, e, after_calls-append x calls later l)
]

-- The context that a backend holds.
abbrev pub held : Option Context → List Context
held none = []
held (some ctx) = ctx ∷ []

destroy-held : (b : Backend) → after_calls (held b.ctx) (destroy b).1 ≡ some []
unfolding destroy unload_model after_calls after_call
destroy-held b = elim (Option-cases b.ctx) [
  | inl e ↦ ground (arith, e)
  | inr (old, e) ↦ ground (arith, e)
]

-- A model is current exactly while a context is held.
abbrev pub IsSynced : Backend → Type 0
IsSynced b = has_model_loaded b ≡ has_value b.current_model

-- The calls of a history and of the destructor after it.
abbrev pub all_calls : Backend × List WhisperCall → List WhisperCall
all_calls (b, calls) = calls ++ (destroy b).1

module _ {Sample : Type 0} (sample_rate : ℕ) where
  unfoldable pub step : Backend → Action Sample → Backend × List WhisperCall
  step b (loads exists ctx model) =
      let loaded : Loaded Sample = load_model exists ctx model b in (loaded.backend, loaded.calls)
  step b unloads = unload_model b
  step b (transcribes answer samples request) =
      let (b', result, calls) = run_whisper_full sample_rate answer samples request b in (b', calls)
  step b requests_abort = (request_abort b, [])
  step b clears_abort = (clear_abort b, [])

  unfoldable pub run : Backend → List (Action Sample) → Backend × List WhisperCall
  run b [] = (b, [])
  run b (action ∷ actions) =
      let (b', calls) = step b action in let (b'', later) = run b' actions in (b'', calls ++ later)

  step-held :
      (b : Backend) (action : Action Sample)
      → after_calls (held b.ctx) (step b action).1 ≡ some (held (step b action).0.ctx)
  unfolding step load_model unload_model run_whisper_full request_abort clear_abort after_calls
      after_call
  step-held b (loads (exists_error message) ctx model) = refl
  step-held b (loads missing ctx model) = refl
  step-held b (loads present none model) = refl
  step-held b (loads present (some ctx) model) = elim (Option-cases b.ctx) [
    | inl e ↦ ground (arith, e)
    | inr (old, e) ↦ ground (arith, e)
  ]
  step-held b unloads = elim (Option-cases b.ctx) [
    | inl e ↦ ground (arith, e)
    | inr (old, e) ↦ ground (arith, e)
  ]
  step-held b (transcribes answer [] request) = refl
  step-held b (transcribes answer (s ∷ samples) request) = elim (Option-cases b.ctx) [
    | inl e ↦ ground (arith, e)
    | inr (old, e) ↦ ground (arith, e)
  ]
  step-held b requests_abort = refl
  step-held b clears_abort = refl

  run-held :
      (b : Backend) (actions : List (Action Sample))
      → after_calls (held b.ctx) (run b actions).1 ≡ some (held (run b actions).0.ctx)
  unfolding run after_calls
  run-held b [] = refl
  run-held b (action ∷ actions) =
      after_calls-append (held b.ctx) (step b action).1 (run (step b action).0 actions).1 _
        (step-held b action)
      ∙ run-held (step b action).0 actions

  step-synced :
      (b : Backend) (action : Action Sample)
      → has_model_loaded b ≡ has_value b.current_model
      → has_model_loaded (step b action).0 ≡ has_value (step b action).0.current_model
  unfolding step load_model unload_model run_whisper_full request_abort clear_abort has_model_loaded
  step-synced b (loads (exists_error message) ctx model) h = h
  step-synced b (loads missing ctx model) h = h
  step-synced b (loads present none model) h = h
  step-synced b (loads present (some ctx) model) h = elim (Option-cases b.ctx) [
    | inl e ↦ ground (arith, e)
    | inr (old, e) ↦ ground (arith, e)
  ]
  step-synced b unloads h = ground arith
  step-synced b (transcribes answer [] request) h = h
  step-synced b (transcribes answer (s ∷ samples) request) h = ground arith
  step-synced b requests_abort h = h
  step-synced b clears_abort h = h

  run-synced :
      (b : Backend) (actions : List (Action Sample))
      → has_model_loaded b ≡ has_value b.current_model
      → has_model_loaded (run b actions).0 ≡ has_value (run b actions).0.current_model
  unfolding run
  run-synced b [] h = h
  run-synced b (action ∷ actions) h = run-synced (step b action).0 actions (step-synced b action h)

  -- Whatever is loaded, unloaded, transcribed and aborted on a new backend, and whatever whisper.cpp
  -- and the file system answer, no context is used or freed that is not live; the one that is held
  -- is the only one left live, a model is current exactly while it is held, and the destructor frees
  -- it, so that none is left.
  pub run-create-IsFreed :
      (actions : List (Action Sample))
      → (after_calls [] (run create actions).1 ≡ some (held (run create actions).0.ctx))
        × IsSynced (run create actions).0
        × (after_calls [] (all_calls (run create actions)) ≡ some [])
  unfolding create has_model_loaded
  run-create-IsFreed actions = (
    run-held create actions,
    run-synced create actions refl,
    after_calls-append [] (run create actions).1 (destroy (run create actions).0).1 _
          (run-held create actions)
        ∙ destroy-held (run create actions).0,
  )
