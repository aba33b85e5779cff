-- ===== src/Session/Live/Settings.antt =====
-- A tick of live_transcriber.cpp leaves the settings alone, and publishes no configuration.
use yoru_speech.Common.{
  ℕ, ◌≡◌, refl, Bool-cases, inl, inr, List, [], ◌∷◌, Option, some, Text, arith, length, is_empty,
  ◌∙◌, text_eq, ◌&&◌, ◌||◌,
}
use yoru_speech.Core.Event.{SessionId, Event}
use yoru_speech.Speech.Transcript.{
  TranscriptionRequest, TranscriptionResult, transcript, speech_error,
}
use yoru_speech.Audio.Recorder.{Recorder}
use yoru_speech.Session.Silence.{Floats, samples_in}
use yoru_speech.Session.Manager.{Manager, reported_state}
use yoru_speech.Session.Manager.Quiet.{AllQuiet}
use yoru_speech.Session.Words.{split_words}
use yoru_speech.Session.Live.Ticks.{first_window, chosen, tick_active_lem, tick_cases}
use yoru_speech.Session.Live.{
  Live, LiveConfig, commit, skip_overlap, close_segment, safe_upper, commit_agreed, must_close,
  take_words, publish_changes, cut_window, heard, transcribe_window, too_early, tick_active, tick,
}

abbrev pub Keeps : Live → Live → Type 0
Keeps l l' =
    (l'.default_language ≡ l.default_language) × (l'.transcription_prompt ≡ l.transcription_prompt)

commit-Keeps : (words : List Text) (a b : ℕ) (l : Live) → Keeps l (commit words a b l)
unfolding commit
commit-Keeps words a b l = ground arith

skip_overlap-Keeps : (words : List Text) (l : Live) → Keeps l (skip_overlap words l)
unfolding skip_overlap
skip_overlap-Keeps words l = ground arith

close_segment-Keeps :
    (keep size : ℕ) (words : List Text) (l : Live) → Keeps l (close_segment keep size words l)
unfolding close_segment
close_segment-Keeps keep size words l = commit-Keeps words l.committed_word_count (length words) l

commit_agreed-Keeps : (words : List Text) (l : Live) → Keeps l (commit_agreed words l)
unfolding commit_agreed
commit_agreed-Keeps words l =
    ground (arith, commit-Keeps words l.committed_word_count (safe_upper l.previous_words words) l)

module _ {Sample : Type 0} (floats : Floats Sample) (config : LiveConfig Sample) where
  take_words-Keeps :
      (window : List Sample) (words : List Text) (l : Live)
      → Keeps l (take_words floats config window words l)
  unfolding take_words
  take_words-Keeps window words l =
      let l' = skip_overlap words l in
      let (a, b) = skip_overlap-Keeps words l in
      elim (Bool-cases (must_close floats config window)) [
        | inl e ↦
            let (c, d) =
              close_segment-Keeps (samples_in config.keep_duration) (length window) words l' in
            rw (e, take_words) (c ∙ a, d ∙ b)
        | inr e ↦ let (c, d) = commit_agreed-Keeps words l' in rw (e, take_words) (c ∙ a, d ∙ b)
      ]

  publish-AllQuiet :
      (id : SessionId) (l l' : Live)
      → AllQuiet {Sample = Sample} (publish_changes floats config id l l')
  unfolding publish_changes
  publish-AllQuiet id l l' =
      elim (Bool-cases
        (text_eq l'.committed_text l.committed_text && text_eq l'.tail_text l.tail_text)) [
          | inl same ↦ rw (same, publish_changes) tt
          | inr changed ↦ rw (changed, publish_changes) (tt, tt)
        ]

  cut-Keeps :
      (late : List Sample) (r : Recorder Sample) (window : List Sample) (l : Live)
      → Keeps l (cut_window floats config late r window l).0
  unfolding cut_window
  cut-Keeps late r window l = ground arith

  module _ (backend : List Sample → TranscriptionRequest → TranscriptionResult) where
    abbrev KeepsQuiet : Live → Live × List (Event Sample) × Option (List Sample) → Type 0
    KeepsQuiet l t = Keeps l t.0 × AllQuiet t.1

    heard-Keeps :
        (id : SessionId) (window : List Sample) (l : Live) (result : TranscriptionResult)
        → let t = heard floats config backend id window l result in Keeps l t.0 × AllQuiet t.1
    unfolding heard
    heard-Keeps id window l (speech_error message) = ((refl, refl), tt)
    heard-Keeps id window l (transcript t) = (
      take_words-Keeps window (split_words t.text) l,
      publish-AllQuiet id l (take_words floats config window (split_words t.text) l),
    )

    transcribe_window-KeepsQuiet :
        (id : SessionId) (now : ℕ) (w : List Sample) (l : Live)
        → KeepsQuiet l (transcribe_window floats config backend id now w l)
    unfolding transcribe_window
    transcribe_window-KeepsQuiet id now [] l = ((refl, refl), tt)
    transcribe_window-KeepsQuiet id now (x ∷ xs) l =
        heard-Keeps id (x ∷ xs) (record l { last_tick_at = some now }) _

    tick_active-KeepsQuiet :
        (id : SessionId) (now : ℕ) (late : List Sample) (r : Recorder Sample) (l : Live)
        → KeepsQuiet l (tick_active floats config backend id now late r l)
    tick_active-KeepsQuiet id now late r l =
        rw (tick_active_lem floats config backend id now late r l)
          (elim (Bool-cases (
            too_early floats config backend now l.last_tick_at
            || is_empty (first_window floats config backend r l))) [
              | inl e ↦ rw e ((refl, refl), tt)
              | inr e ↦
                  let c = chosen floats config backend late r l in
                  let (a, b) = cut-Keeps late r (first_window floats config backend r l) l in
                  let ((a', b'), q) = transcribe_window-KeepsQuiet id now c.1 c.0 in
                  rw e ((a' ∙ a, b' ∙ b), q)
            ])

    pub tick-KeepsQuiet :
        (now : ℕ) (late : List Sample) (m : Manager Sample) (l : Live)
        → Keeps l (tick floats config backend now late m l).0
          × AllQuiet (tick floats config backend now late m l).1
    tick-KeepsQuiet now late m l =
        elim (tick_cases floats config backend now late m l (reported_state m) refl) [
          | inl (inl e) ↦ rw e ((refl, refl), tt)
          | inl (inr e) ↦ rw e ((refl, refl), tt)
          | inr (id, recording, free, found, e) ↦
              rw e (tick_active-KeepsQuiet id now late m.recorder l)
        ]
