-- ===== src/App/Program/Sending.antt =====
-- What app/main.cpp's program sends when events are published.
use yoru_speech.Common.{
  true, false, if◌then◌else◌, ◌≡◌, refl, sym, ap, ◌∙◌, List, [], ◌∷◌, append-nil, append_assoc,
  Option, Text, Extends, Extends-refl, Extends-append, Extends-trans, arith,
}
use mathlib.Core.Path.{subst}
use yoru_speech.Core.Event.{
  SessionId, Event, recording_started, recording_finished, transcription_queued,
  transcription_started, transcription_completed, transcription_partial, model_loaded,
  configuration_changed, error_occurred, session_cancelled,
}
use yoru_speech.Config.Toml.{TomlLibrary}
use yoru_speech.Session.Manager.Quiet.{IsPlain, AllPlain}
use yoru_speech.Ipc.Codec.{JsonLibrary}
use yoru_speech.Ipc.Service.{Sent, and_then, broadcast, broadcast_all}
use yoru_speech.Speech.Transcript.{Transcript}
use yoru_speech.App.Program.{Program, sending, publish_event, publish_events}
use yoru_speech.App.Program.Delivery.{
  alive, alive_keeps, alive_cases, informed, errors, note, send_all, report_all, delivered,
  publish_event_lem,
}

-- The calls of send_line so far, and whether an exception has come after them.
abbrev pub sent_by : {Sample : Type 0} → Program Sample → Sent
sent_by p = (p.sends, p.terminated)

pub and_then_assoc : (a b c : Sent) → and_then (and_then a b) c ≡ and_then a (and_then b c)
unfolding and_then
and_then_assoc (l, true) b c = refl
and_then_assoc (l, false) (m, true) c = refl
and_then_assoc (l, false) (m, false) (n, t) = ap (λ x. (x, t)) (append_assoc l m n)

pub and_then-nothing : (a : Sent) → and_then a ([], false) ≡ a
unfolding and_then
and_then-nothing (l, true) = refl
and_then-nothing (l, false) = ap (λ x. (x, false)) (append-nil l)

and_then-Extends : (a b : Sent) → Extends a.0 (and_then a b).0
unfolding and_then
and_then-Extends (l, true) b = Extends-refl l
and_then-Extends (l, false) (m, t) = Extends-append l m

module _ (json : JsonLibrary) (toml : TomlLibrary) (local_time : Text) (copy : Text → Option Text)
    {Sample : Type 0} where
  -- Events that no handler answers with another: they are broadcast in order up to the first that
  -- throws, and change neither the managers nor the subscriptions.
  abbrev pub After : Program Sample → List (Event Sample) → Program Sample → Type 0
  After p events p' =
      (p'.daemon ≡ p.daemon)
      × (p'.subscribed ≡ p.subscribed)
      × (sent_by p' ≡ and_then (sent_by p) (broadcast_all json toml p.subscribed events))

  abbrev AfterOne : Program Sample → Event Sample → Program Sample → Type 0
  AfterOne p event p' =
      (p'.daemon ≡ p.daemon)
      × (p'.subscribed ≡ p.subscribed)
      × (sent_by p' ≡ and_then (sent_by p) (broadcast json toml p.subscribed event))

  -- Nothing is done after an exception.
  alive_after :
      (f : Program Sample → Program Sample) (event : Event Sample) (p : Program Sample)
      → (p.terminated ≡ false → AfterOne p event (f p))
      → AfterOne p event (alive json toml local_time copy f p)
  unfolding alive and_then
  alive_after f event p going =
      elim p.terminated as (λ t. (p.terminated ≡ t) → AfterOne p event (if t then p else f p)) [
        | true ↦ λ e. (refl, refl, ground (arith, e))
        | false ↦ λ e. going e
      ]
        refl

  reported :
      (event : Event Sample) (p : Program Sample)
      → p.terminated ≡ false
      → AfterOne p event
          (send_all json toml local_time copy event (note json toml local_time copy event p))
  unfolding note send_all sending and_then
  reported event p e = ground (arith, e)

  informed-sends :
      (event : Event Sample) (p : Program Sample)
      → (informed json toml local_time copy event p).sends ≡ p.sends
  unfolding informed
  informed-sends event p = ground arith

  plain-After :
      (event : Event Sample) (p : Program Sample)
      → IsPlain event
      → p.terminated ≡ false
      → let q = informed json toml local_time copy event (note json toml local_time copy event p) in
        AfterOne p event (
          alive json toml local_time copy
            (send_all json toml local_time copy event)
            (report_all json toml local_time copy (errors json toml local_time copy event q) q))
  unfolding informed errors note send_all report_all alive sending and_then
  plain-After (recording_started id) p q e = ground (arith, e)
  plain-After (recording_finished id recording) p q e = ground (arith, e)
  plain-After (transcription_queued id position) p q e = ground (arith, e)
  plain-After (transcription_started id) p q e = ground (arith, e)
  plain-After (transcription_partial id committed tail) p q e = ground (arith, e)
  plain-After (model_loaded model) p q e = ground (arith, e)
  plain-After (session_cancelled id) p q e = ground (arith, e)
  plain-After (error_occurred id component message) p q e = ground (arith, e)
  plain-After (transcription_completed id t) p q e = absurd q
  plain-After (configuration_changed c) p q e = absurd q

  pub event-After :
      (event : Event Sample) (p : Program Sample)
      → IsPlain event
      → AfterOne p event (publish_event json toml local_time copy event p)
  unfolding delivered
  event-After event p q = rw (publish_event_lem json toml local_time copy event p) (
      alive_after
        (λ r.
          let r' =
            informed json toml local_time copy event (note json toml local_time copy event r) in
          alive json toml local_time copy (send_all json toml local_time copy event)
            (report_all json toml local_time copy (errors json toml local_time copy event r') r'))
        event p (plain-After event p q))

  -- One event and then others.
  joined-After :
      (event : Event Sample) (events : List (Event Sample)) (p p' p'' : Program Sample)
      → AfterOne p event p'
      → After p' events p''
      → After p (event ∷ events) p''
  unfolding broadcast_all
  joined-After event events p p' p'' (d, s, t) (d', s', t') = (
    d' ∙ d,
    s' ∙ s,
    t'
        ∙ ap (λ l. and_then l (broadcast_all json toml p'.subscribed events)) t
        ∙ and_then_assoc (sent_by p) (broadcast json toml p.subscribed event)
            (broadcast_all json toml p'.subscribed events)
        ∙ ap
            (λ ids. and_then (sent_by p) (
              and_then (broadcast json toml p.subscribed event)
                (broadcast_all json toml ids events)))
            s,
  )

  pub publish-After :
      (events : List (Event Sample)) (p : Program Sample)
      → AllPlain events
      → After p events (publish_events json toml local_time copy events p)
  unfolding publish_events broadcast_all
  publish-After [] p q = (refl, refl, sym (and_then-nothing (sent_by p)))
  publish-After (event ∷ events) p q =
      let p' = publish_event json toml local_time copy event p in
      joined-After event events p p' (publish_events json toml local_time copy events p')
        (event-After event p q.0) (publish-After events p' q.1)

  report_all-After :
      (events : List (Event Sample)) (p : Program Sample)
      → After p events (report_all json toml local_time copy events p)
  unfolding report_all broadcast_all
  report_all-After [] p = (refl, refl, sym (and_then-nothing (sent_by p)))
  report_all-After (event ∷ events) p =
      let report : Program Sample → Program Sample =
        λ q. send_all json toml local_time copy event (note json toml local_time copy event q) in
      let p' = alive json toml local_time copy report p in
      joined-After event events p p' (report_all json toml local_time copy events p')
        (alive_after report event p (reported event p)) (report_all-After events p')

  -- Any event only adds to what was sent.
  alive-Extends :
      (f : Program Sample → Program Sample) (p q : Program Sample)
      → Extends q.sends p.sends
      → Extends q.sends (f p).sends
      → Extends q.sends (alive json toml local_time copy f p).sends
  alive-Extends f p q = alive_keeps json toml local_time copy (λ r. Extends q.sends r.sends) f p

  delivered-Extends :
      (event : Event Sample) (p : Program Sample)
      → Extends p.sends (delivered json toml local_time copy event p).sends
  unfolding delivered informed note send_all sending
  delivered-Extends event p =
      let p' = informed json toml local_time copy event (note json toml local_time copy event p) in
      let errs = errors json toml local_time copy event p' in
      let q = report_all json toml local_time copy errs p' in
      let reported : Extends p.sends q.sends =
        subst (λ l. Extends l q.sends)
          (informed-sends event (note json toml local_time copy event p))
          (subst (λ (x : Sent). Extends p'.sends x.0) (sym (report_all-After errs p').2)
            (and_then-Extends (sent_by p') (broadcast_all json toml p'.subscribed errs))) in
      let rest : Program Sample → Program Sample = λ r.
        let r' =
          informed json toml local_time copy event (note json toml local_time copy event r) in
        alive json toml local_time copy (send_all json toml local_time copy event)
          (report_all json toml local_time copy (errors json toml local_time copy event r') r') in
      alive-Extends rest p p (Extends-refl p.sends) (
        alive-Extends (send_all json toml local_time copy event) q p reported (
          Extends-trans p.sends reported
            (Extends-append q.sends (broadcast json toml q.subscribed event).0)))

  pub publish-Extends :
      (events : List (Event Sample)) (p : Program Sample)
      → Extends p.sends (publish_events json toml local_time copy events p).sends
  unfolding publish_events
  publish-Extends [] p = Extends-refl p.sends
  publish-Extends (event ∷ events) p =
      Extends-trans p.sends
        (rw (publish_event_lem json toml local_time copy event p) (delivered-Extends event p))
        (publish-Extends events (publish_event json toml local_time copy event p))

  -- What the subscribed clients are sent of a completed transcription: the clipboard's error comes
  -- before it.
  abbrev pub news_of : Program Sample → SessionId → Transcript → Sent
  news_of p id t =
      and_then
        (broadcast_all json toml p.subscribed
          (errors json toml local_time copy (transcription_completed id t) p))
        (broadcast json toml {Sample = Sample} p.subscribed (transcription_completed id t))

  sent_once :
      (event : Event Sample) (p : Program Sample)
      → AfterOne p event
          (alive json toml local_time copy (send_all json toml local_time copy event) p)
  unfolding send_all sending and_then
  sent_once event p =
      alive_after (send_all json toml local_time copy event) event p (λ e. ground (arith, e))

  -- The events, and then the last one.
  publish_all-After :
      (events : List (Event Sample)) (event : Event Sample) (p p' p'' : Program Sample)
      → After p events p'
      → AfterOne p' event p''
      → (p''.daemon ≡ p.daemon)
        × (sent_by p''
            ≡ and_then (sent_by p) (
                and_then
                  (broadcast_all json toml p.subscribed events)
                  (broadcast json toml p.subscribed event)))
  publish_all-After events event p p' p'' (d, s, t) (d', s', t') = (
    d' ∙ d,
    t'
        ∙ ap (λ l. and_then l (broadcast json toml p'.subscribed event)) t
        ∙ ap
            (λ ids.
              and_then (and_then (sent_by p) (broadcast_all json toml p.subscribed events))
                (broadcast json toml ids event))
            s
        ∙ and_then_assoc (sent_by p) (broadcast_all json toml p.subscribed events)
            (broadcast json toml p.subscribed event),
  )

  pub completed-After :
      (id : SessionId) (t : Transcript) (p : Program Sample)
      → let p' = publish_event json toml local_time copy (transcription_completed id t) p in
        (p'.daemon ≡ p.daemon) × (sent_by p' ≡ and_then (sent_by p) (news_of p id t))
  unfolding delivered informed note errors and_then
  completed-After id t p =
      let done : Event Sample = transcription_completed id t in
      let failed = errors json toml local_time copy done p in
      let noted = note json toml local_time copy done p in
      let q = report_all json toml local_time copy failed noted in
      let Sends : Program Sample → Type 0 =
        λ r. (r.daemon ≡ p.daemon) × (sent_by r ≡ and_then (sent_by p) (news_of p id t)) in
      rw (publish_event_lem json toml local_time copy done p) (
        alive_cases json toml local_time copy Sends
          (λ r.
            let r' = note json toml local_time copy done r in
            alive json toml local_time copy (send_all json toml local_time copy done)
              (report_all json toml local_time copy (errors json toml local_time copy done r') r'))
          p (λ e. (refl, ground (arith, e)))
          (λ e.
            publish_all-After failed done noted q
              (alive json toml local_time copy (send_all json toml local_time copy done) q)
              (report_all-After failed noted) (sent_once done q)))
