-- ===== src/App/Program/Results.antt =====
-- The poll of app/main.cpp that publishes the result of a dictation.
use yoru_speech.Common.{false, ◌≡◌, sym, ap, ◌∙◌, List, [], ◌∷◌, ◌++◌, Option, some, Text}
use mathlib.Core.Path.{subst}
use yoru_speech.Core.Event.{SessionId, Event, transcription_started, transcription_completed}
use yoru_speech.Config.Toml.{TomlLibrary}
use yoru_speech.Speech.Transcript.{Transcript, transcript}
use yoru_speech.Session.Manager.{poll_completed}
use yoru_speech.Session.Manager.Reports.{last_success, starts, outcomes, poll_completed_lem}
use yoru_speech.Ipc.Codec.{JsonLibrary}
use yoru_speech.Ipc.Dispatcher.{Daemon}
use yoru_speech.Ipc.Service.{Sends, Sent, and_then, broadcast}
use yoru_speech.App.Program.{Program, publish_event, publish_events, poll}
use yoru_speech.App.Program.Delivery.{errors}
use yoru_speech.App.Program.Same.{events-Same}
use yoru_speech.App.Program.Sending.{sent_by, and_then_assoc, event-After, news_of, completed-After}
use yoru_speech.Common.{lit, refl, Bool-cases, Option-cases, inl, inr}
use yoru_speech.Clipboard.Auto
use yoru_speech.Clipboard.Auto.{copied}
use yoru_speech.Ipc.Service.{broadcast_all}
use yoru_speech.Ipc.Codec.Utf8.{JsonLaws, IsEncodable, AllEncodable, is_ascii}
use yoru_speech.Ipc.Service.Writing.{and_then-false, broadcast-false, broadcast_all-false}

-- What is left of a dictation when its result is polled.
module _ (json : JsonLibrary) (toml : TomlLibrary) (local_time : Text) (copy : Text → Option Text)
    {Sample : Type 0} where
  -- The two events of a job that was begun and finished since the last poll.
  abbrev both : SessionId → Transcript → List (Event Sample)
  both id t = transcription_started id ∷ transcription_completed id t ∷ []

  -- What they send.
  abbrev pub sent_of : Program Sample → SessionId → Transcript → Sent
  sent_of p id t =
      and_then (broadcast json toml {Sample = Sample} p.subscribed (transcription_started id))
        (news_of json toml local_time copy p id t)

  both_sent :
      (id : SessionId) (t : Transcript) (p : Program Sample)
      → let p' = publish_events json toml local_time copy (both id t) p in
        (p'.daemon ≡ p.daemon) × (sent_by p' ≡ and_then (sent_by p) (sent_of p id t))
  unfolding publish_events errors
  both_sent id t p =
      let q = publish_event json toml local_time copy (transcription_started id) p in
      let (d, s, x) = event-After json toml local_time copy (transcription_started id) p tt in
      let (d', clipboard, language, prompt) =
        events-Same json toml local_time copy (transcription_started id ∷ []) p (tt, tt) in
      let (d'', x') = completed-After json toml local_time copy id t q in
      let begun = broadcast json toml {Sample = Sample} p.subscribed (transcription_started id) in
      (
        d'' ∙ d,
        x'
            ∙ ap (λ l. and_then l (news_of json toml local_time copy q id t)) x
            ∙ ap
                (λ ids. and_then (and_then (sent_by p) begun) (
                  news_of json toml local_time copy
                    (record p { subscribed = ids; clipboard = q.clipboard }) id t))
                s
            ∙ ap
                (λ c.
                  and_then (and_then (sent_by p) begun)
                    (news_of json toml local_time copy (record p { clipboard = c }) id t))
                clipboard
            ∙ and_then_assoc (sent_by p) begun (news_of json toml local_time copy p id t),
      )

  errors-AllEncodable :
      (laws : JsonLaws json) (p : Program Sample) (id : SessionId) (t : Transcript)
      → ((message : Text) → copy t.text ≡ some message → laws.IsUtf8 message)
      → AllEncodable json laws (errors json toml local_time copy (transcription_completed id t) p)
  unfolding errors Auto.transcription_completed copied lit is_ascii
  errors-AllEncodable laws p id t shown = elim (Bool-cases p.clipboard.enabled) [
    | inr off ↦ rw off tt
    | inl on ↦ elim (Option-cases (copy t.text)) [
      | inl fine ↦ rw (on, fine) tt
      | inr (message, e) ↦ rw (on, e) ((laws.ascii-IsUtf8 _ refl, shown message e), tt)
    ]
  ]

  pub sent_of-false :
      (laws : JsonLaws json) (p : Program Sample) (id : SessionId) (t : Transcript)
      → IsEncodable json laws {Sample = Sample} (transcription_completed id t)
      → ((message : Text) → copy t.text ≡ some message → laws.IsUtf8 message)
      → (sent_of p id t).1 ≡ false
  sent_of-false laws p id t spoken shown =
      let done : Event Sample = transcription_completed id t in
      let failed = errors json toml local_time copy done p in
      and_then-false (broadcast json toml {Sample = Sample} p.subscribed (transcription_started id))
        (news_of json toml local_time copy p id t)
        (broadcast-false json toml laws {Sample = Sample} p.subscribed (transcription_started id)
          tt)
        (and_then-false (broadcast_all json toml p.subscribed failed)
          (broadcast json toml p.subscribed done)
          (broadcast_all-false json toml laws p.subscribed failed
            (errors-AllEncodable laws p id t shown))
          (broadcast-false json toml laws p.subscribed done spoken))

  pub poll_delivers :
      (p : Program Sample) (id : SessionId) (t : Transcript)
      → p.daemon.sessions.queue.started ≡ id ∷ []
      → p.daemon.sessions.queue.completed ≡ record { session_id = id; result = transcript t } ∷ []
      → let p' = poll json toml local_time copy (λ q. q) p in
        (p'.daemon.sessions.last_completed ≡ some id)
        × (sent_by p' ≡ and_then (sent_by p) (sent_of p id t))
  unfolding poll errors
  poll_delivers p id t s c =
      let m = p.daemon.sessions in
      let lem = poll_completed_lem (λ q. q) m in
      let r = poll_completed (λ q. q) m in
      let p' : Program Sample = record p { daemon = record p.daemon { sessions = r.0 } } in
      let events : r.1 ≡ both id t =
        ap (λ x. x.1) lem
        ∙ ap (λ ids. starts ids ++ outcomes m.queue.completed) s
        ∙ ap (λ rs. starts (id ∷ []) ++ outcomes rs) c in
      let last : r.0.last_completed ≡ some id =
        ap (λ x. x.0.last_completed) lem ∙ ap (λ rs. last_success rs m.last_completed) c in
      let (d, x) = both_sent id t p' in
      subst
        (λ es.
          let q = publish_events json toml local_time copy es p' in
          (q.daemon.sessions.last_completed ≡ some id)
          × (sent_by q ≡ and_then (sent_by p) (sent_of p id t)))
        (sym events) (ap (λ (y : Daemon Sample). y.sessions.last_completed) d ∙ last, x)

  -- The session is the last success, the process goes on, and the last lines sent are the dictation's.
  abbrev pub Delivered : Program Sample → SessionId → Transcript → Option (Program Sample) → Type 0
  Delivered p id t o =
      (p' : Program Sample) × (o ≡ some p')
      × (p'.daemon.sessions.last_completed ≡ some id)
      × (p'.terminated ≡ false)
      × ((before : Sends) × (p'.sends ≡ before ++ (sent_of p id t).0))
