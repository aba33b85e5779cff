-- ===== src/App/Startup.antt =====
-- load_configured_model of app/main.cpp: the model repository and the whisper.cpp backend together.
use yoru_speech.Common.{◌≡◌, ◌⊎◌, true, [], ◌∷◌, none, some, Text, has_value}
use yoru_speech.Core.Event.{model_loaded}
use yoru_speech.Config.Configuration.{Configuration}
use yoru_speech.Speech.Model.{Model}
use yoru_speech.Speech.Repository.{Scan}
use yoru_speech.Speech.Repository.Listing.{HasFirst}
use yoru_speech.Speech.Whisper.{Backend, has_model_loaded}
use yoru_speech.App.Journal.{Startup}

-- The model that the name stands for is loaded and announced; or a warning is logged, and nothing is
-- loaded or announced.
abbrev pub Starts : {Sample : Type 0} → Text → Text → Scan → Backend → Startup Sample → Type 0
Starts directory name scan b s =
    ((s.warning ≡ none)
      × (has_model_loaded s.backend ≡ true)
      × ((model : Model) × (model.name ≡ name)
          × HasFirst directory name model scan
          × (s.backend.current_model ≡ some model)
          × (s.events ≡ model_loaded model ∷ [])))
    ⊎ ((has_value s.warning ≡ true) × (s.backend ≡ b) × (s.events ≡ []) × (s.calls ≡ []))
