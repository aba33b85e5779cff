-- ===== src/Session/Live/Preview.antt =====
-- What a tick of the live preview shows: the committed text only grows, and each change is
-- published, once.
use yoru_speech.Common.{
  ℕ, ◌≡◌, refl, ◌∙◌, ◌⊎◌, inl, inr, ◌&&◌, List, [], ◌∷◌, Option, some, arith, Bool-cases, Extends,
  Extends-refl, text_eq, text_eq_iff, is_empty, ◌||◌,
}
use yoru_speech.Core.Event.{SessionId, Event, transcription_partial}
use yoru_speech.Speech.Transcript.{
  TranscriptionRequest, TranscriptionResult, transcript, speech_error,
}
use yoru_speech.Audio.Recorder.{Recorder}
use yoru_speech.Session.Manager.{Manager, reported_state, active_session_id}
use yoru_speech.Session.Silence.{Floats}
use yoru_speech.Session.Words.{split_words}
use yoru_speech.Session.Live.Commit.{take_words-Extends}
use yoru_speech.Session.Live.Ticks.{first_window, chosen, tick_active_lem, tick_cases}
use yoru_speech.Session.Live.{
  Live, LiveConfig, take_words, publish_changes, cut_window, heard, transcribe_window, too_early,
  tick_active, tick,
}

-- Nothing changed that a client sees, and nothing was published; or the new texts were, for `id`.
abbrev pub Shows : {Sample : Type 0} → SessionId → Live → Live → List (Event Sample) → Type 0
Shows id l l' events =
    ((events ≡ []) × (l'.committed_text ≡ l.committed_text) × (l'.tail_text ≡ l.tail_text))
    ⊎ (events ≡ transcription_partial id l'.committed_text l'.tail_text ∷ [])

module _ {Sample : Type 0} (floats : Floats Sample) (config : LiveConfig Sample) where
  publish-Shows :
      (id : SessionId) (l l' : Live)
      → Shows {Sample = Sample} id l l' (publish_changes floats config id l l')
  unfolding publish_changes
  publish-Shows id l l' =
      elim (Bool-cases
        (text_eq l'.committed_text l.committed_text && text_eq l'.tail_text l.tail_text)) [
          | inl same ↦
              rw (same, publish_changes)
                (inl (
                  refl,
                  (text_eq_iff l'.committed_text l.committed_text).0 (ground arith),
                  (text_eq_iff l'.tail_text l.tail_text).0 (ground arith),
                ))
          | inr changed ↦ rw (changed, publish_changes) (inr refl)
        ]

  cut_keeps :
      (late : List Sample) (r : Recorder Sample) (window : List Sample) (l : Live)
      → let l' = (cut_window floats config late r window l).0 in
        (l'.committed_text ≡ l.committed_text) × (l'.tail_text ≡ l.tail_text)
  unfolding cut_window
  cut_keeps late r window l = ground arith

  module _ (backend : List Sample → TranscriptionRequest → TranscriptionResult) where
    abbrev Grows : SessionId → Live → Live × List (Event Sample) × Option (List Sample) → Type 0
    Grows id l t = Extends l.committed_text t.0.committed_text × Shows id l t.0 t.1

    heard_lem :
        (id : SessionId) (window : List Sample) (l : Live) (result : TranscriptionResult)
        → let t = heard floats config backend id window l result in
          Extends l.committed_text t.0.committed_text × Shows id l t.0 t.1
    unfolding heard
    heard_lem id window l (speech_error message) =
        (Extends-refl l.committed_text, inl (refl, refl, refl))
    heard_lem id window l (transcript t) = (
      take_words-Extends floats config window (split_words t.text) l,
      publish-Shows id l (take_words floats config window (split_words t.text) l),
    )

    transcribe_window-Grows :
        (id : SessionId) (now : ℕ) (w : List Sample) (l : Live)
        → Grows id l (transcribe_window floats config backend id now w l)
    unfolding transcribe_window
    transcribe_window-Grows id now [] l = (Extends-refl l.committed_text, inl (refl, refl, refl))
    transcribe_window-Grows id now (x ∷ xs) l =
        heard_lem id (x ∷ xs) (record l { last_tick_at = some now }) _

    -- The same seen from a state with the same texts.
    moved :
        (id : SessionId) (l l' : Live) (t : Live × List (Event Sample) × Option (List Sample))
        → l'.committed_text ≡ l.committed_text
        → l'.tail_text ≡ l.tail_text
        → Grows id l' t
        → Grows id l t
    moved id l l' t p q (grows, shows) =
        (rw p at grows, elim shows [ inl (e, f, g) ↦ inl (e, f ∙ p, g ∙ q) | inr e ↦ inr e ])

    tick_active-Grows :
        (id : SessionId) (now : ℕ) (late : List Sample) (r : Recorder Sample) (l : Live)
        → Grows id l (tick_active floats config backend id now late r l)
    tick_active-Grows id now late r l =
        rw (tick_active_lem floats config backend id now late r l)
          (elim (Bool-cases (
            too_early floats config backend now l.last_tick_at
            || is_empty (first_window floats config backend r l))) [
              | inl e ↦ rw e (Extends-refl l.committed_text, inl (refl, refl, refl))
              | inr e ↦
                  let c = chosen floats config backend late r l in
                  let keeps = cut_keeps late r (first_window floats config backend r l) l in
                  rw e (
                    moved id l c.0 (transcribe_window floats config backend id now c.1 c.0) keeps.0
                      keeps.1 (transcribe_window-Grows id now c.1 c.0))
            ])

    -- A tick never takes back or rewrites committed text, it only appends to it. It publishes nothing
    -- and leaves both texts as they were, or it publishes, for the active session, exactly one
    -- transcription_partial, with the committed text and the tail that it ends with.
    pub tick_lem :
        (now : ℕ) (late : List Sample) (m : Manager Sample) (l : Live)
        → let t = tick floats config backend now late m l in
          Extends l.committed_text t.0.committed_text
          × (((t.1 ≡ []) × (t.0.committed_text ≡ l.committed_text) × (t.0.tail_text ≡ l.tail_text))
              ⊎ ((id : SessionId) × (active_session_id m ≡ some id)
                  × (t.1 ≡ transcription_partial id t.0.committed_text t.0.tail_text ∷ [])))
    tick_lem now late m l =
        elim (tick_cases floats config backend now late m l (reported_state m) refl) [
          | inl (inl e) ↦ rw e (Extends-refl l.committed_text, inl (refl, refl, refl))
          | inl (inr e) ↦ rw e (Extends-refl l.committed_text, inl (refl, refl, refl))
          | inr (id, recording, free, found, e) ↦
              let (grows, shows) = tick_active-Grows id now late m.recorder l in
              rw e (grows, elim shows [ inl same ↦ inl same | inr new ↦ inr (id, found, new) ])
        ]
