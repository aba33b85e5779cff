-- ===== src/Session/Live.antt =====
-- domains/session/live_transcriber.hpp and live_transcriber.cpp. The time of the steady clock, the
-- backend, and the samples that arrive while tick runs are arguments. The samples' count is far
-- below 2^63, so the signed durations do not overflow.
pub mod Commit
pub mod Ticks
pub mod Preview
pub mod Bounds
pub mod Settings
mod Examples
use yoru_speech.Common.{
  ℕ, zero, suc, ◌+◌, ◌-◌, ◌*◌, ◌/◌, min, ltb, leb, ◌==◌, Bool, true, false, not, ◌&&◌, ◌||◌, List,
  [], ◌∷◌, ◌++◌, Option, none, some, Text, lit, text_eq, length, is_empty, if◌then◌else◌,
}
use yoru_speech.Core.Event.{SessionId, Event, transcription_partial}
use yoru_speech.Config.Configuration.{Configuration}
use yoru_speech.Speech.Transcript.{
  TranscriptionRequest, TranscriptionResult, transcript, speech_error,
}
use yoru_speech.Audio.Recording.{sample_rate_hz}
use yoru_speech.Audio.Recorder
use yoru_speech.Session.Manager.{
  Manager, is_recording, reported_state, transcription_busy, active_session_id,
}
use yoru_speech.Session.Silence.{Floats, samples_in, has_trailing_silence}
use yoru_speech.Session.Words.{split_words, join_words, common_prefix_length, overlap_prefix_length}

-- LiveTranscriberConfig, in milliseconds.
pub record LiveConfig (Sample : Type 0) : Type 0 where
  pub min_interval : ℕ
  pub max_segment_duration : ℕ
  pub keep_duration : ℕ
  pub vad_trailing_duration : ℕ
  pub vad_threshold : Sample

pub record Live : Type 0 where
  pub last_tick_at : Option ℕ
  pub paused_for_worker : Bool
  pub committed_sample_count : ℕ
  pub committed_word_count : ℕ
  pub committed_text : Text
  pub tail_text : Text
  pub previous_words : List Text
  pub carried_words : List Text
  pub default_language : Text
  pub transcription_prompt : Text

-- The constructor's state.
unfoldable pub create : Configuration → Live
create c = record {
  last_tick_at = none;
  paused_for_worker = false;
  committed_sample_count = 0;
  committed_word_count = 0;
  committed_text = [];
  tail_text = [];
  previous_words = [];
  carried_words = [];
  default_language = c.default_language;
  transcription_prompt = c.transcription_prompt;
}

-- Also the handler of RecordingStarted.
unfoldable pub reset : Live → Live
reset l = record l {
  last_tick_at = none;
  paused_for_worker = false;
  committed_sample_count = 0;
  committed_word_count = 0;
  committed_text = [];
  tail_text = [];
  previous_words = [];
  carried_words = [];
}

-- The handler of ConfigurationChanged.
unfoldable pub configuration_changed : Configuration → Live → Live
configuration_changed c l = record l {
  default_language = c.default_language;
  transcription_prompt = c.transcription_prompt;
}

unfoldable pub commit : List Text → ℕ → ℕ → Live → Live
commit words from_index to_index l =
    let new_text = join_words words from_index to_index in
    if is_empty new_text
    then l
    else if is_empty l.committed_text
    then record l { committed_text = new_text }
    else record l { committed_text = l.committed_text ++ 32 ∷ new_text }

-- The first tick of a segment passes over words that repeat the end of the last segment.
unfoldable pub skip_overlap : List Text → Live → Live
skip_overlap words l =
    if l.committed_word_count == 0 && is_empty l.previous_words && not (is_empty l.carried_words)
    then record l {
      committed_word_count = overlap_prefix_length l.carried_words words;
      carried_words = [];
    }
    else l

-- The branch of force_commit, for a window of `size` samples.
unfoldable pub close_segment : ℕ → ℕ → List Text → Live → Live
unfolding commit
close_segment keep_samples size words l =
    let l' = commit words l.committed_word_count (length words) l in
    record l' {
      tail_text = [];
      carried_words = words;
      committed_sample_count =
          l.committed_sample_count + (if ltb keep_samples size then size - keep_samples else size);
      committed_word_count = 0;
      previous_words = [];
    }

-- The last word is never committed by agreement alone.
unfoldable pub safe_upper : List Text → List Text → ℕ
safe_upper previous words =
    if is_empty words then 0 else min (common_prefix_length previous words) (length words - 1)

unfoldable pub commit_agreed : List Text → Live → Live
unfolding commit safe_upper
commit_agreed words l =
    let upper = safe_upper l.previous_words words in
    let l' =
      if ltb l.committed_word_count upper
      then record (commit words l.committed_word_count upper l) { committed_word_count = upper }
      else l in
    record l' {
      tail_text = join_words words l'.committed_word_count (length words);
      previous_words = words;
    }

module _ {Sample : Type 0} (floats : Floats Sample) (config : LiveConfig Sample) where
  unfoldable pub must_close : List Sample → Bool
  must_close window =
      leb config.max_segment_duration (length window * 1000 / sample_rate_hz)
      || has_trailing_silence floats window config.vad_trailing_duration config.vad_threshold

  -- What tick does with the words that were recognised in the window.
  unfoldable pub take_words : List Sample → List Text → Live → Live
  unfolding skip_overlap close_segment commit_agreed must_close
  take_words window words l =
      let l' = skip_overlap words l in
      if must_close window
      then close_segment (samples_in config.keep_duration) (length window) words l'
      else commit_agreed words l'

  -- Publishes only if something changed.
  unfoldable pub publish_changes : SessionId → Live → Live → List (Event Sample)
  publish_changes id before after =
      if text_eq after.committed_text before.committed_text
        && text_eq after.tail_text before.tail_text
      then []
      else transcription_partial id after.committed_text after.tail_text ∷ []

  -- After a pause for the worker the window is cut to the newest max_segment_duration; `late` arrives
  -- between the two snapshots.
  unfoldable pub cut_window :
      List Sample → Recorder.Recorder Sample → List Sample → Live → Live × List Sample
  cut_window late r window l =
      let most = samples_in config.max_segment_duration in
      if not l.paused_for_worker
      then (l, window)
      else if ltb most (length window)
      then (let from = l.committed_sample_count + (length window - most) in
          (
            record l {
              paused_for_worker = false;
              committed_sample_count = from;
              committed_word_count = 0;
              previous_words = [];
              carried_words = [];
            },
            Recorder.samples_snapshot from (Recorder.on_samples late r),
          ))
      else (record l { paused_for_worker = false }, window)

  module _ (backend : List Sample → TranscriptionRequest → TranscriptionResult) where
    pub heard : SessionId → List Sample → Live → TranscriptionResult → Live × List (Event Sample)
    unfolding take_words publish_changes
    heard id window l (speech_error message) = (l, [])
    heard id window l (transcript t) =
        let l' = take_words window (split_words t.text) l in (l', publish_changes id l l')

    -- From `last_tick_at_ = now` on. The third component is the window that the backend was given.
    pub transcribe_window :
        SessionId → ℕ → List Sample → Live → Live × List (Event Sample) × Option (List Sample)
    unfolding heard
    transcribe_window id now [] l = (l, [], none)
    transcribe_window id now (x ∷ xs) l =
        let l' = record l { last_tick_at = some now } in
        let (l'', events) = heard id (x ∷ xs) l' (
          backend (x ∷ xs)
            (record { language = l.default_language; initial_prompt = l.transcription_prompt })) in
        (l'', events, some (x ∷ xs))

    abbrev pub too_early : ℕ → Option ℕ → Bool
    too_early now none = false
    too_early now (some last) = ltb now (last + config.min_interval)

    pub tick_active :
        SessionId
        → ℕ
        → List Sample
        → Recorder.Recorder Sample
        → Live
        → Live × List (Event Sample) × Option (List Sample)
    unfolding transcribe_window cut_window
    tick_active id now late r l =
        let window = Recorder.samples_snapshot l.committed_sample_count r in
        if too_early now l.last_tick_at || is_empty window
        then (l, [], none)
        else (let (l', window') = cut_window late r window l in transcribe_window id now window' l')

    unfoldable pub tick :
        ℕ → List Sample → Manager Sample → Live → Live × List (Event Sample) × Option (List Sample)
    unfolding tick_active
    tick now late m l =
        if not (is_recording (reported_state m))
        then (l, [], none)
        else if transcription_busy m
        then (record l { paused_for_worker = true }, [], none)
        else elim (active_session_id m) [
          | none ↦ (l, [], none)
          | some id ↦ tick_active id now late m.recorder l
        ]
