-- ===== src/Session/Live/Examples.antt =====
-- Ticks of the live preview, with natural numbers for the floats.
use yoru_speech.Common.{
  ℕ, ◌+◌, ◌-◌, ◌*◌, ◌/◌, ◌<◌, ◌≡◌, refl, ◌⊎◌, leb, ltb, min, true, false, List, [], ◌∷◌, Option,
  none, some, Text, lit, text_eq, length, Extends, if◌then◌else◌,
}
use yoru_speech.Core.Event.{SessionId, Event, transcription_partial}
use yoru_speech.Config.Configuration.{default_configuration}
use yoru_speech.Speech.Transcript.{TranscriptionRequest, TranscriptionResult, transcript}
use yoru_speech.Audio.Recorder
use yoru_speech.Session.Lifecycle.{ServiceState, SessionState}
use yoru_speech.Session.Queue
use yoru_speech.Session.Queue.{outstanding_count}
use yoru_speech.Session.Manager.{
  Manager, create, reported_state, transcription_busy, active_session_id,
}
use yoru_speech.Session.Silence.{Floats, samples_in, has_trailing_silence}
use yoru_speech.Session.Words.{
  split_words, is_space, words_match, strip_trailing_punctuation, is_punct, join_words,
  common_prefix_length, overlap_prefix_length,
}
use yoru_speech.Session.Words.Agreement.{match_at}
use yoru_speech.Session.Live.{
  Live, LiveConfig, skip_overlap, close_segment, commit_agreed, take_words, tick,
}
use yoru_speech.Session.Live
use yoru_speech.Session.Live.Commit.{with_words, commit_agreed_lem, segment_boundary}
use yoru_speech.Session.Live.Preview.{tick_lem}

abbrev numbers : Floats ℕ
numbers = record {
  zero = 0;
  abs = λ x. x;
  add = λ x y. x + y;
  mul = λ x y. x * y;
  over = λ x n. x / n;
  at_most = λ x y. leb x y;
}

-- A segment is at most 32 samples long.
abbrev config : LiveConfig ℕ
config = record {
  min_interval = 1500;
  max_segment_duration = 2;
  keep_duration = 1;
  vad_trailing_duration = 1;
  vad_threshold = 1;
}

abbrev backend : List ℕ → TranscriptionRequest → TranscriptionResult
backend window request = transcript (record {
  text = lit "we deploy";
  detected_language = lit "en";
  requested_language = request.language;
  audio_duration = 0;
  processing_time = 0;
})

abbrev recording : Manager ℕ
recording = record (create default_configuration 2) {
  recorder = record Recorder.create { samples = 5 ∷ 6 ∷ []; active_session = some 1 };
  state = ServiceState.recording;
  active_session =
      some (record { id = 1; state = SessionState.recording; created_at = 0; finished_at = none });
}

abbrev live : Live
live = record (Live.create default_configuration) {
  last_tick_at = some 100;
  paused_for_worker = true;
  previous_words = lit "we" ∷ [];
}

abbrev window : List ℕ
window = 5 ∷ 6 ∷ []

abbrev ticked : Live × List (Event ℕ) × Option (List ℕ)
ticked = tick numbers config backend 1600 (7 ∷ []) recording live

-- The newest word is shown but not committed.
ticked_texts :
    (ticked.0.committed_text ≡ lit "we")
    × (ticked.1 ≡ transcription_partial 1 (lit "we") (lit "deploy") ∷ [])
unfolding tick create Live.create Recorder.create reported_state transcription_busy lit
    active_session_id outstanding_count Queue.create Recorder.samples_snapshot samples_in
    has_trailing_silence split_words is_space common_prefix_length words_match text_eq
    strip_trailing_punctuation is_punct join_words
ticked_texts = (refl, refl)

tick_example :
    Extends live.committed_text ticked.0.committed_text
    × (((ticked.1 ≡ [])
          × (ticked.0.committed_text ≡ live.committed_text)
          × (ticked.0.tail_text ≡ live.tail_text))
        ⊎ ((id : SessionId) × (active_session_id recording ≡ some id)
            × (ticked.1
                ≡ transcription_partial id ticked.0.committed_text ticked.0.tail_text ∷ [])))
tick_example = tick_lem numbers config backend 1600 (7 ∷ []) recording live

abbrev heard_words : List Text
heard_words = lit "we" ∷ lit "deploy" ∷ []

commit_agreed_example :
    let l' = commit_agreed heard_words live in
    let n = min (common_prefix_length live.previous_words heard_words) (length heard_words - 1) in
    ((i : ℕ) → i < n → match_at live.previous_words heard_words i ≡ true)
    × ((n ≡ length heard_words - 1) ⊎ (match_at live.previous_words heard_words n ≡ false))
    × (l'.committed_text ≡ (
        if ltb live.committed_word_count n
        then with_words live.committed_text heard_words live.committed_word_count n
        else live.committed_text))
    × (l'.committed_word_count
        ≡ (if ltb live.committed_word_count n then n else live.committed_word_count))
    × (l'.tail_text ≡ join_words heard_words l'.committed_word_count (length heard_words))
    × (l'.previous_words ≡ heard_words)
commit_agreed_example = commit_agreed_lem heard_words live

abbrev next_words : List Text
next_words = lit "deploy," ∷ lit "now" ∷ []

segment_boundary_example :
    let l' = close_segment 16 40 heard_words live in
    let k = overlap_prefix_length heard_words next_words in
    ((skip_overlap next_words l').committed_word_count ≡ k)
    × ((skip_overlap next_words l').carried_words ≡ [])
    × ((close_segment 16 40 next_words (skip_overlap next_words l')).committed_text
        ≡ with_words l'.committed_text next_words k (length next_words))
segment_boundary_example = segment_boundary 16 40 16 40 heard_words next_words live
