-- ===== src/App/Samples.antt =====
-- Concrete data for the tests of app.
use yoru_speech.Common.{ℕ, ◌+◌, ◌*◌, ◌/◌, leb, true, false, List, [], Option, none, some, Text, lit}
use yoru_speech.Config.Configuration.{default_configuration}
use yoru_speech.Config.Store
use yoru_speech.Speech.Model.{Model}
use yoru_speech.Speech.Repository.{Scan, at_end, entry}
use yoru_speech.Speech.Transcript.{
  Transcript, TranscriptionRequest, TranscriptionResult, transcript,
}
use yoru_speech.Speech.Whisper.{Context, Exists, present}
use yoru_speech.Session.Silence.{Floats}
use yoru_speech.Session.Live.{LiveConfig}

-- Natural numbers for the floats.
abbrev pub floats : Floats ℕ
floats = record {
  zero = 0;
  abs = λ x. x;
  add = λ x y. x + y;
  mul = λ x y. x * y;
  over = λ x n. x / n;
  at_most = λ x y. leb x y;
}

abbrev pub config : LiveConfig ℕ
config = record {
  min_interval = 1000;
  max_segment_duration = 5;
  keep_duration = 1;
  vad_trailing_duration = 2;
  vad_threshold = 1;
}

abbrev pub spoken : Transcript
spoken = record {
  text = lit "hello";
  detected_language = lit "en";
  requested_language = lit "auto";
  audio_duration = 10;
  processing_time = 3;
}

abbrev pub backend : List ℕ → TranscriptionRequest → TranscriptionResult
backend window request = transcript spoken

abbrev pub local_time : Text
local_time = lit "2025-01-01 10:00:00"

-- A clipboard command that is not there.
abbrev pub copy : Text → Option Text
copy text = some (lit "wl-copy not found")

abbrev pub configurations : Store.Manager
configurations = record {
  configuration = default_configuration;
  disk = record { target = none; temporary = none };
  published = [];
}

abbrev pub scan : Scan
scan =
    entry (record { filename = lit "base.bin"; is_regular_file = true; file_type_error = false })
      at_end

abbrev pub answers : Model → Exists × Option Context
answers model = (present, some 3)
