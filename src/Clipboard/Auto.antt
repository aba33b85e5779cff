-- ===== src/Clipboard/Auto.antt =====
-- domains/clipboard/auto_clipboard.cpp: AutoClipboard, the handlers that its constructor subscribes.
-- `copy` is the adapter: the error message that it returns for a text, if any.
use yoru_speech.Common.{Bool, not, List, [], ◌∷◌, Option, none, some, Text, lit, if◌then◌else◌}
use yoru_speech.Core.Event.{SessionId, Event, error_occurred}
use yoru_speech.Config.Configuration.{Configuration}
use yoru_speech.Speech.Transcript.{Transcript}

pub record AutoClipboard : Type 0 where
  pub enabled : Bool

unfoldable pub create : Configuration → AutoClipboard
create initial_configuration = record { enabled = initial_configuration.auto_clipboard }

unfoldable pub copied : {Sample : Type 0} → SessionId → Option Text → List (Event Sample)
copied id none = []
copied id (some message) = error_occurred (some id) (lit "clipboard") message ∷ []

-- The handler of TranscriptionCompleted: what it publishes.
unfoldable pub transcription_completed :
    {Sample : Type 0}
    → (Text → Option Text)
    → SessionId
    → Transcript
    → AutoClipboard
    → List (Event Sample)
unfolding copied
transcription_completed copy id transcript a =
    if not a.enabled then [] else copied id (copy transcript.text)

-- The handler of ConfigurationChanged.
unfoldable pub configuration_changed : Configuration → AutoClipboard → AutoClipboard
configuration_changed configuration a = record a { enabled = configuration.auto_clipboard }

unfoldable pub is_enabled : AutoClipboard → Bool
is_enabled a = a.enabled
