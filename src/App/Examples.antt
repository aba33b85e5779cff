-- ===== src/App/Examples.antt =====
-- The daemon at concrete inputs.
use yoru_speech.Common.{ℕ, ◌≡◌, List, [], ◌∷◌, some, lit}
use yoru_speech.Core.Event.{Event, transcription_completed}
use yoru_speech.Speech.Transcript.{TranscriptionRequest, TranscriptionResult, transcript}
use yoru_speech.Ipc.Samples.{entries, reading, set_language, toml, surroundings}
use yoru_speech.Ipc.Codec.{JsonLibrary, parse_message}
use yoru_speech.App.Program.Dictation.{script, run-script-Delivered}
use yoru_speech.App.Program.Results.{Delivered}
use yoru_speech.Session.Manager.{start_session}
use yoru_speech.Session.Queue
use yoru_speech.Common.{text_eq, if◌then◌else◌, refl}
use yoru_speech.App.Samples.{floats, config, spoken, backend, local_time, copy, configurations}
use yoru_speech.Config.Configuration.{Configuration, default_configuration}
use yoru_speech.Speech.Whisper
use yoru_speech.App.Program.{Program, create, publish_event}
use yoru_speech.App.Program.Delivery.{delivered, publish_event_lem}
use yoru_speech.App.Program.Steps.{Action, line, disconnected, polled, ticked, run}
use yoru_speech.Session.Manager
use yoru_speech.Audio.Recorder
use yoru_speech.Audio.Device
use yoru_speech.Ipc.Codec.Utf8.{JsonLaws}
use yoru_speech.App.Program.Agreement.{Agrees, run-create-IsAgreed}

abbrev program : Program ℕ
program = create configurations 3

publish_event_example :
    publish_event set_language toml local_time copy (transcription_completed 4 spoken) program
    ≡ delivered set_language toml local_time copy (transcription_completed 4 spoken) program
publish_event_example =
    publish_event_lem set_language toml local_time copy (transcription_completed 4 spoken) program

-- The line is a set_config command.
abbrev actions : List (Action ℕ)
actions = line 1 (lit "{}") surroundings ∷ polled (λ q. q) ∷ ticked 100 [] ∷ disconnected 1 ∷ []

run-create-IsAgreed_example :
    Agrees (
      run set_language toml local_time copy floats config backend (create configurations 3) actions)
run-create-IsAgreed_example =
    run-create-IsAgreed set_language toml local_time copy floats config backend configurations 3
      actions

-- A job waits, and client 8 listens.
abbrev waiting : Program ℕ
waiting = record program {
  subscribed = 8 ∷ [];
  daemon = record program.daemon {
    sessions = record program.daemon.sessions {
      queue = record program.daemon.sessions.queue {
        pending =
            record {
              session_id = 4;
              samples = 1 ∷ [];
              request = record { language = lit "auto"; initial_prompt = lit "" };
            }
            ∷ [];
      };
    };
  };
}

-- The line "1" is a start_recording, and every other line a stop_recording.
abbrev recordings : JsonLibrary
recordings = record (reading (entries [])) {
  parse = λ line. some (
      entries (
        (lit "type", if text_eq line (lit "1") then lit "start_recording" else lit "stop_recording")
        ∷ []));
}

recordings_laws : JsonLaws recordings
recordings_laws = record {
  IsUtf8 = λ text. Unit;
  IsClean = λ value. Unit;
  ascii-IsUtf8 = λ text h. tt;
  string-IsClean = λ text h. tt;
  boolean-IsClean = λ b. tt;
  number-IsClean = λ n. tt;
  object-IsClean = λ fields h. tt;
  dump_returns = λ value h. refl;
}

abbrev transcribe : List ℕ → TranscriptionRequest → TranscriptionResult
transcribe samples request = transcript spoken

run-script-Delivered_example : Delivered recordings toml local_time copy program 1 spoken (
    run recordings toml local_time copy floats config backend program (
      script recordings toml local_time copy floats config backend 1
        (lit "1")
        surroundings
        ((2 ∷ []) ∷ (3 ∷ 4 ∷ []) ∷ [])
        (lit "2")
        surroundings
        transcribe))
unfolding create Manager.create Recorder.create Queue.create start_session parse_message text_eq lit
    Queue.has_capacity Recorder.start Device.start Device.create recordings_laws
run-script-Delivered_example =
    run-script-Delivered recordings toml local_time copy floats config backend 1 (lit "1")
      surroundings ((2 ∷ []) ∷ (3 ∷ 4 ∷ []) ∷ []) (lit "2") surroundings transcribe program
      (start_session surroundings.hardware 5 program.daemon.sessions).0
      (start_session surroundings.hardware 5 program.daemon.sessions).1 spoken refl refl refl
      (refl, refl, refl) refl recordings_laws refl (tt, tt, tt) (λ message e. tt)

-- base.bin is there, and the configuration asks for "base".
abbrev asks_base : Configuration
asks_base = record default_configuration { selected_model = lit "base" }
