-- ===== src/App/Program/Same.antt =====
-- What an event that is no configuration leaves alone in the program of app/main.cpp.
use yoru_speech.Common.{◌≡◌, refl, ◌∙◌, List, [], ◌∷◌, Option, Text}
use yoru_speech.Core.Event.{
  Event, recording_started, recording_finished, transcription_queued, transcription_started,
  transcription_completed, transcription_partial, model_loaded, configuration_changed,
  error_occurred, session_cancelled,
}
use yoru_speech.Config.Toml.{TomlLibrary}
use yoru_speech.Session.Manager.Quiet.{IsQuiet, AllQuiet}
use yoru_speech.Session.Live.{reset}
use yoru_speech.Ipc.Codec.{JsonLibrary}
use yoru_speech.App.Program.{sending, Program, publish_event, publish_events}
use yoru_speech.App.Program.Delivery.{
  alive, alive_keeps, informed, errors, note, send_all, report_all, delivered, publish_event_lem,
}

-- What an event that is no configuration leaves alone.
abbrev pub Same : {Sample : Type 0} → Program Sample → Program Sample → Type 0
Same p p' =
    (p'.daemon ≡ p.daemon)
    × (p'.clipboard ≡ p.clipboard)
    × (p'.live.default_language ≡ p.live.default_language)
    × (p'.live.transcription_prompt ≡ p.live.transcription_prompt)

module _ (json : JsonLibrary) (toml : TomlLibrary) (local_time : Text) (copy : Text → Option Text)
    {Sample : Type 0} where
  Same-trans : (p q r : Program Sample) → Same p q → Same q r → Same p r
  Same-trans p q r (a, b, c, d) (a', b', c', d') = (a' ∙ a, b' ∙ b, c' ∙ c, d' ∙ d)

  report_all-Same :
      (events : List (Event Sample)) (p : Program Sample)
      → Same p (report_all json toml local_time copy events p)
  unfolding report_all note send_all sending
  report_all-Same [] p = (refl, refl, refl, refl)
  report_all-Same (event ∷ events) p =
      let report : Program Sample → Program Sample =
        λ q. send_all json toml local_time copy event (note json toml local_time copy event q) in
      let p' = alive json toml local_time copy report p in
      Same-trans p p' (report_all json toml local_time copy events p')
        (alive_keeps json toml local_time copy (Same p) report p (refl, refl, refl, refl)
          (refl, refl, refl, refl))
        (report_all-Same events p')

  -- What an event that is no configuration makes of the components.
  informed-Same :
      (event : Event Sample) (p : Program Sample)
      → IsQuiet event
      → Same p (informed json toml local_time copy event (note json toml local_time copy event p))
  unfolding informed note reset
  informed-Same (recording_started id) p q = (refl, refl, refl, refl)
  informed-Same (recording_finished id recording) p q = (refl, refl, refl, refl)
  informed-Same (transcription_queued id position) p q = (refl, refl, refl, refl)
  informed-Same (transcription_started id) p q = (refl, refl, refl, refl)
  informed-Same (transcription_completed id t) p q = (refl, refl, refl, refl)
  informed-Same (transcription_partial id committed tail) p q = (refl, refl, refl, refl)
  informed-Same (model_loaded model) p q = (refl, refl, refl, refl)
  informed-Same (session_cancelled id) p q = (refl, refl, refl, refl)
  informed-Same (configuration_changed c) p q = absurd q
  informed-Same (error_occurred id component message) p q = (refl, refl, refl, refl)

  delivered-Same :
      (event : Event Sample) (p : Program Sample)
      → IsQuiet event
      → Same p (delivered json toml local_time copy event p)
  unfolding delivered send_all sending
  delivered-Same event p q =
      let p₁ = informed json toml local_time copy event (note json toml local_time copy event p) in
      let p₂ =
        report_all json toml local_time copy (errors json toml local_time copy event p₁) p₁ in
      let same =
        Same-trans p p₁ p₂ (informed-Same event p q)
          (report_all-Same (errors json toml local_time copy event p₁) p₁) in
      alive_keeps json toml local_time copy (Same p)
        (λ q.
          let q' =
            informed json toml local_time copy event (note json toml local_time copy event q) in
          alive json toml local_time copy (send_all json toml local_time copy event)
            (report_all json toml local_time copy (errors json toml local_time copy event q') q'))
        p (refl, refl, refl, refl)
        (alive_keeps json toml local_time copy (Same p) (send_all json toml local_time copy event)
          p₂ same same)

  event-Same :
      (event : Event Sample) (p : Program Sample)
      → IsQuiet event
      → Same p (publish_event json toml local_time copy event p)
  event-Same event p q =
      rw (publish_event_lem json toml local_time copy event p) (delivered-Same event p q)

  pub events-Same :
      (events : List (Event Sample)) (p : Program Sample)
      → AllQuiet events
      → Same p (publish_events json toml local_time copy events p)
  unfolding publish_events
  events-Same [] p q = (refl, refl, refl, refl)
  events-Same (event ∷ events) p q =
      let p' = publish_event json toml local_time copy event p in
      Same-trans p p' (publish_events json toml local_time copy events p') (event-Same event p q.0)
        (events-Same events p' q.1)
