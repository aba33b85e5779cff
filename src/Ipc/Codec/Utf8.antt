-- ===== src/Ipc/Codec/Utf8.antt =====
-- nlohmann::json's dump on texts that are UTF-8, and the encoders of domains/ipc/message_codec.cpp.
use yoru_speech.Common.{
  ℕ, ltb, ◌≡◌, refl, Bool, true, ◌&&◌, List, [], ◌∷◌, ◌++◌, Option, none, some, has_value, Text,
  lit,
}
use yoru_speech.Core.Event.{
  SessionId, Event, recording_started, recording_finished, transcription_queued,
  transcription_started, transcription_completed, error_occurred, transcription_partial,
  model_loaded, configuration_changed, session_cancelled,
}
use yoru_speech.Session.Manager.{QueuedJob}
use yoru_speech.Ipc.Codec.{JsonLibrary, encode_ack, encode_queued, id_field}
use yoru_speech.Ipc.Codec.Events.{encode_event, event_envelope}

unfoldable pub is_ascii : Text → Bool
is_ascii [] = true
is_ascii (c ∷ cs) = ltb c 128 && is_ascii cs

-- The keys and the values of an object.
abbrev pub AllFields :
    {Json : Type 0} → (Text → Type 0) → (Json → Type 0) → List (Text × Json) → Type 0
AllFields Key Value [] = Unit
AllFields Key Value ((key, value) ∷ fields) = Key key × Value value × AllFields Key Value fields

-- dump throws only for a text that is not UTF-8, which ASCII is.
pub record JsonLaws (json : JsonLibrary) : Type 1 where
  pub IsUtf8 : Text → Type 0
  pub IsClean : json.Json → Type 0
  pub ascii-IsUtf8 : (text : Text) → is_ascii text ≡ true → IsUtf8 text
  pub string-IsClean : (text : Text) → IsUtf8 text → IsClean (json.string text)
  pub boolean-IsClean : (b : Bool) → IsClean (json.boolean b)
  pub number-IsClean : (n : ℕ) → IsClean (json.number n)
  pub object-IsClean :
      (fields : List (Text × json.Json))
      → AllFields IsUtf8 IsClean fields
      → IsClean (json.object fields)
  pub dump_returns : (value : json.Json) → IsClean value → has_value (json.dump value) ≡ true

module _ (json : JsonLibrary) (laws : JsonLaws json) where
  open laws use {
    IsUtf8, IsClean, ascii-IsUtf8, string-IsClean, boolean-IsClean, number-IsClean, object-IsClean,
    dump_returns,
  }

  -- What the envelope of an event says.
  envelope_returns :
      (name : Text) (fields : List (Text × json.Json))
      → is_ascii name ≡ true
      → AllFields IsUtf8 IsClean fields
      → has_value (event_envelope json name fields) ≡ true
  unfolding event_envelope is_ascii lit
  envelope_returns name fields h clean = dump_returns _ (
      object-IsClean _ (
        ascii-IsUtf8 _ refl,
        string-IsClean _ (ascii-IsUtf8 _ refl),
        (ascii-IsUtf8 _ refl, string-IsClean name (ascii-IsUtf8 name h), clean),
      ))

  pub encode_ack_returns :
      (type : Text) → is_ascii type ≡ true → has_value (encode_ack json type) ≡ true
  unfolding encode_ack is_ascii lit
  encode_ack_returns type h = dump_returns _ (
      object-IsClean _ (
        ascii-IsUtf8 _ refl,
        string-IsClean type (ascii-IsUtf8 type h),
        (ascii-IsUtf8 _ refl, boolean-IsClean true, tt),
      ))

  pub encode_queued_returns :
      (type : Text) (job : QueuedJob)
      → is_ascii type ≡ true
      → has_value (encode_queued json type job) ≡ true
  unfolding encode_queued is_ascii lit
  encode_queued_returns type job h = dump_returns _ (
      object-IsClean _ (
        ascii-IsUtf8 _ refl,
        string-IsClean type (ascii-IsUtf8 type h),
        (
          ascii-IsUtf8 _ refl,
          boolean-IsClean true,
          (ascii-IsUtf8 _ refl, number-IsClean _, (ascii-IsUtf8 _ refl, number-IsClean _, tt)),
        ),
      ))

  -- Events with texts that are UTF-8.
  abbrev pub IsEncodable : {Sample : Type 0} → Event Sample → Type 0
  IsEncodable (recording_started id) = Unit
  IsEncodable (recording_finished id recording) = Unit
  IsEncodable (transcription_queued id position) = Unit
  IsEncodable (transcription_started id) = Unit
  IsEncodable (transcription_completed id t) =
      IsUtf8 t.text × IsUtf8 t.detected_language × IsUtf8 t.requested_language
  IsEncodable (error_occurred id component message) = IsUtf8 component × IsUtf8 message
  IsEncodable event = ⊥

  id_fields :
      (id : Option SessionId) (fields : List (Text × json.Json))
      → AllFields IsUtf8 IsClean fields
      → AllFields IsUtf8 IsClean (id_field json (lit "session_id") id ++ fields)
  unfolding id_field is_ascii lit
  id_fields none fields clean = clean
  id_fields (some id) fields clean = (ascii-IsUtf8 _ refl, number-IsClean id, clean)

  pub encode_event_returns :
      {Sample : Type 0} (event : Event Sample)
      → IsEncodable event
      → has_value (encode_event json event) ≡ true
  unfolding encode_event is_ascii lit
  encode_event_returns (recording_started id) v =
      envelope_returns _ _ refl (ascii-IsUtf8 _ refl, number-IsClean id, tt)
  encode_event_returns (recording_finished id recording) v = envelope_returns _ _ refl (
    ascii-IsUtf8 _ refl,
    number-IsClean id,
    (
      ascii-IsUtf8 _ refl,
      number-IsClean _,
      (ascii-IsUtf8 _ refl, number-IsClean _, (ascii-IsUtf8 _ refl, number-IsClean _, tt)),
    ),
  )
  encode_event_returns (transcription_queued id position) v =
      envelope_returns _ _ refl
        (ascii-IsUtf8 _ refl, number-IsClean id, (ascii-IsUtf8 _ refl, number-IsClean position, tt))
  encode_event_returns (transcription_started id) v =
      envelope_returns _ _ refl (ascii-IsUtf8 _ refl, number-IsClean id, tt)
  encode_event_returns (transcription_completed id t) (text, detected, requested) =
      envelope_returns _ _ refl (
        ascii-IsUtf8 _ refl,
        number-IsClean id,
        (
          ascii-IsUtf8 _ refl,
          string-IsClean _ text,
          (
            ascii-IsUtf8 _ refl,
            string-IsClean _ detected,
            (
              ascii-IsUtf8 _ refl,
              string-IsClean _ requested,
              (ascii-IsUtf8 _ refl, number-IsClean _, (ascii-IsUtf8 _ refl, number-IsClean _, tt)),
            ),
          ),
        ),
      )
  encode_event_returns (error_occurred id component message) (c, m) = envelope_returns _ _ refl (
      id_fields id _
        (ascii-IsUtf8 _ refl, string-IsClean _ c, (ascii-IsUtf8 _ refl, string-IsClean _ m, tt)))
  encode_event_returns (transcription_partial id committed tail) v = absurd v
  encode_event_returns (model_loaded m) v = absurd v
  encode_event_returns (configuration_changed c) v = absurd v
  encode_event_returns (session_cancelled id) v = absurd v

  abbrev pub AllEncodable : {Sample : Type 0} → List (Event Sample) → Type 0
  AllEncodable [] = Unit
  AllEncodable (event ∷ events) = IsEncodable event × AllEncodable events
