-- ===== src/Session/Live/Bounds.antt =====
-- The sample index of the live preview stays within the recording, and the window after a pause
-- stays short.
use yoru_speech.Common.{
  ℕ, ◌+◌, ◌-◌, ◌≤◌, ◌≡◌, refl, inl, inr, true, List, [], ◌∷◌, some, Text, arith, length,
  length-append, length-drop,
}
use yoru_speech.Core.Event.{SessionId}
use yoru_speech.Speech.Transcript.{
  TranscriptionRequest, TranscriptionResult, transcript, speech_error,
}
use yoru_speech.Audio.Recorder
use yoru_speech.Audio.Recorder.{Recorder}
use yoru_speech.Session.Manager.{Manager, reported_state}
use yoru_speech.Session.Silence.{Floats, samples_in}
use yoru_speech.Session.Words.{split_words}
use yoru_speech.Session.Live.Commit.{take_words_lem}
use yoru_speech.Session.Live.Ticks.{chosen, tick_active_lem, tick_cases, tick_active_guard}
use yoru_speech.Session.Live.{
  Live, LiveConfig, skip_overlap, close_segment, commit_agreed, take_words, cut_window, heard,
  transcribe_window, tick_active, tick,
}

module _ {Sample : Type 0} where
  length-snapshot :
      (i : ℕ) (r : Recorder Sample) → length (Recorder.samples_snapshot i r) ≡ length r.samples - i
  unfolding Recorder.samples_snapshot
  length-snapshot i r = ground (arith, length-drop i r.samples)

  length-on_samples :
      (late : List Sample) (r : Recorder Sample)
      → length (Recorder.on_samples late r).samples ≡ length r.samples + length late
  unfolding Recorder.on_samples
  length-on_samples late r = length-append r.samples late

skip_keeps_count :
    (words : List Text) (l : Live)
    → (skip_overlap words l).committed_sample_count ≡ l.committed_sample_count
unfolding skip_overlap
skip_keeps_count words l = ground arith

close_count :
    (keep size : ℕ) (words : List Text) (l : Live)
    → (close_segment keep size words l).committed_sample_count ≤ l.committed_sample_count + size
unfolding close_segment
close_count keep size words l = ground arith

agreed_count :
    (words : List Text) (l : Live)
    → (commit_agreed words l).committed_sample_count ≡ l.committed_sample_count
unfolding commit_agreed
agreed_count words l = ground arith

module _ {Sample : Type 0} (floats : Floats Sample) (config : LiveConfig Sample) where
  take_words_count :
      (window : List Sample) (words : List Text) (l : Live)
      → (take_words floats config window words l).committed_sample_count
        ≤ l.committed_sample_count + length window
  take_words_count window words l = ground (
    arith,
    take_words_lem floats config window words l,
    skip_keeps_count words l,
    close_count (samples_in config.keep_duration) (length window) words (skip_overlap words l),
    agreed_count words (skip_overlap words l),
  )

  -- Where the chosen window ends, and how long it is after a pause.
  cut_lem :
      (late : List Sample) (r : Recorder Sample) (l : Live)
      → l.committed_sample_count ≤ length r.samples
      → let c =
          cut_window floats config late r
            (Recorder.samples_snapshot l.committed_sample_count r)
            l in
        (c.0.committed_sample_count + length c.1 ≤ length r.samples + length late)
        × (l.paused_for_worker ≡ true
            → length c.1 ≤ samples_in config.max_segment_duration + length late)
  unfolding cut_window
  cut_lem late r l h =
      let from =
        l.committed_sample_count
        + (length (Recorder.samples_snapshot l.committed_sample_count r)
            - samples_in config.max_segment_duration) in
      ground (
        arith,
        length-snapshot l.committed_sample_count r,
        length-snapshot from (Recorder.on_samples late r),
        length-on_samples late r,
      )

  module _ (backend : List Sample → TranscriptionRequest → TranscriptionResult) where
    heard_count :
        (id : SessionId) (window : List Sample) (l : Live) (result : TranscriptionResult)
        → (heard floats config backend id window l result).0.committed_sample_count
          ≤ l.committed_sample_count + length window
    unfolding heard
    heard_count id window l (speech_error message) = omega arith
    heard_count id window l (transcript t) = take_words_count window (split_words t.text) l

    transcribe_count :
        (id : SessionId) (now : ℕ) (w : List Sample) (l : Live)
        → (transcribe_window floats config backend id now w l).0.committed_sample_count
          ≤ l.committed_sample_count + length w
    unfolding transcribe_window
    transcribe_count id now [] l = omega arith
    transcribe_count id now (x ∷ xs) l =
        heard_count id (x ∷ xs) (record l { last_tick_at = some now }) _

    tick_active_count :
        (id : SessionId) (now : ℕ) (late : List Sample) (r : Recorder Sample) (l : Live)
        → l.committed_sample_count ≤ length r.samples
        → (tick_active floats config backend id now late r l).0.committed_sample_count
          ≤ length r.samples + length late
    tick_active_count id now late r l h =
        let c = chosen floats config backend late r l in
        ground (
          arith,
          tick_active_lem floats config backend id now late r l,
          cut_lem late r l h,
          transcribe_count id now c.1 c.0,
        )

    tick_bounds_lem :
        (now : ℕ) (late : List Sample) (m : Manager Sample) (l : Live)
        → l.committed_sample_count ≤ length m.recorder.samples
        → let t = tick floats config backend now late m l in
          (t.0.committed_sample_count ≤ length m.recorder.samples + length late)
          × ((window : List Sample)
              → t.2 ≡ some window
              → l.paused_for_worker ≡ true
              → length window ≤ samples_in config.max_segment_duration + length late)
    tick_bounds_lem now late m l h =
        elim (tick_cases floats config backend now late m l (reported_state m) refl) [
          | inl (inl e) ↦ (ground (arith, e), λ w p q. absurd (ground (arith, e, p)))
          | inl (inr e) ↦ (ground (arith, e), λ w p q. absurd (ground (arith, e, p)))
          | inr (id, recording, free, found, e) ↦ (
            ground (arith, e, tick_active_count id now late m.recorder l h),
            λ w p q.
                let g =
                  tick_active_guard floats config backend id now late m.recorder l w
                    (ground (arith, e, p)) in
                ground (arith, g.1, (cut_lem late m.recorder l h).1 q),
          )
        ]

    -- If the index of the first uncommitted sample lies within the recording before a tick, it lies
    -- within it afterwards, the samples that arrived meanwhile included.
    pub tick_bounds :
        (now : ℕ) (late : List Sample) (m : Manager Sample) (l : Live)
        → l.committed_sample_count ≤ length m.recorder.samples
        → (tick floats config backend now late m l).0.committed_sample_count
          ≤ length m.recorder.samples + length late
    tick_bounds now late m l h = (tick_bounds_lem now late m l h).0
