-- ===== src/Session/Live/Ticks.antt =====
-- When the live preview calls the backend, with which audio, and what it publishes.
use yoru_speech.Common.{
  ℕ, ◌≡◌, ◌≢◌, refl, ◌⊎◌, inl, inr, if◌then◌else◌, true, false, ◌||◌, List, [], ◌∷◌, none, some,
  arith, is_empty, Bool-cases, Option-cases,
}
use yoru_speech.Core.Event.{SessionId}
use yoru_speech.Speech.Transcript.{TranscriptionRequest, TranscriptionResult}
use yoru_speech.Audio.Recorder
use yoru_speech.Audio.Recorder.{Recorder}
use yoru_speech.Session.Lifecycle.{ServiceState}
use yoru_speech.Session.Manager.{Manager, reported_state, transcription_busy, active_session_id}
use yoru_speech.Session.Silence.{Floats}
use yoru_speech.Session.Live.{
  Live, LiveConfig, cut_window, transcribe_window, too_early, tick_active, tick,
}

module _ {Sample : Type 0} (floats : Floats Sample) (config : LiveConfig Sample)
    (backend : List Sample → TranscriptionRequest → TranscriptionResult) where
  transcribe_window_guard :
      (id : SessionId) (now : ℕ) (w : List Sample) (l : Live) (window : List Sample)
      → (transcribe_window floats config backend id now w l).2 ≡ some window
      → (window ≡ w) × (window ≢ [])
  unfolding transcribe_window
  transcribe_window_guard id now [] l window h = absurd (ground (arith, h))
  transcribe_window_guard id now (x ∷ xs) l window h =
      (ground (arith, h), λ e. ground (arith, h, e))

  -- The window of the first snapshot, and what cut_window makes of it.
  abbrev pub first_window : Recorder Sample → Live → List Sample
  first_window r l = Recorder.samples_snapshot l.committed_sample_count r

  abbrev pub chosen : List Sample → Recorder Sample → Live → Live × List Sample
  chosen late r l = cut_window floats config late r (first_window r l) l

  pub tick_active_lem :
      (id : SessionId) (now : ℕ) (late : List Sample) (r : Recorder Sample) (l : Live)
      → tick_active floats config backend id now late r l ≡ (
          if too_early floats config backend now l.last_tick_at || is_empty (first_window r l)
          then (l, [], none)
          else transcribe_window floats config backend id now
              (chosen late r l).1
              (chosen late r l).0)
  unfolding tick_active
  tick_active_lem id now late r l = refl

  pub tick_active_guard :
      (id : SessionId) (now : ℕ) (late : List Sample) (r : Recorder Sample) (l : Live)
      (window : List Sample)
      → (tick_active floats config backend id now late r l).2 ≡ some window
      → (too_early floats config backend now l.last_tick_at ≡ false)
        × (window ≡ (chosen late r l).1)
        × (window ≢ [])
  tick_active_guard id now late r l window h =
      elim (Bool-cases
        (too_early floats config backend now l.last_tick_at || is_empty (first_window r l))) [
          | inl e ↦ absurd (ground (arith, h, e, tick_active_lem id now late r l))
          | inr e ↦
              let p =
                transcribe_window_guard id now (chosen late r l).1 (chosen late r l).0 window
                  (ground (arith, h, e, tick_active_lem id now late r l)) in
              (ground arith, p.0, p.1)
        ]

  pub tick_cases :
      (now : ℕ) (late : List Sample) (m : Manager Sample) (l : Live) (st : ServiceState)
      → reported_state m ≡ st
      → let t = tick floats config backend now late m l in
        ((t ≡ (l, [], none)) ⊎ (t ≡ (record l { paused_for_worker = true }, [], none)))
        ⊎ ((id : SessionId) × (st ≡ ServiceState.recording)
            × (transcription_busy m ≡ false)
            × (active_session_id m ≡ some id)
            × (t ≡ tick_active floats config backend id now late m.recorder l))
  unfolding tick
  tick_cases now late m l ServiceState.idle e = ground arith
  tick_cases now late m l ServiceState.recording e = elim (Bool-cases (transcription_busy m)) [
    | inl busy ↦ inl (inr (rw (e, busy, tick) refl))
    | inr free ↦ elim (Option-cases (active_session_id m)) [
      | inl missing ↦ inl (inl (rw (e, free, missing, tick) refl))
      | inr (id, found) ↦ inr (id, refl, free, found, rw (e, free, found, tick) refl)
    ]
  ]
  tick_cases now late m l _ e = ground arith
