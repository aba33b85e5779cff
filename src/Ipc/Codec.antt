-- ===== src/Ipc/Codec.antt =====
-- domains/ipc/message_codec.hpp and message_codec.cpp. The nlohmann::json library is a parameter.
pub mod Events
pub mod Throwing
pub mod Utf8
use yoru_speech.Common.{
  ℕ, Bool, true, false, List, [], ◌∷◌, ◌++◌, map, Option, none, some, Text, lit, text_eq,
  if◌then◌else◌,
}
use yoru_speech.Config.Configuration.{ModelLoadPolicy, on_demand, always_loaded, Configuration}
use yoru_speech.Speech.Model.{Model, ModelSize}
use yoru_speech.Session.Lifecycle.{ServiceState}
use yoru_speech.Session.Manager.{QueuedJob, SessionStatus}
use yoru_speech.Core.Event.{SessionId}

-- What the codec uses of the library: parse without exceptions, the tests and conversions of a
-- value, contains and at of an object, the construction of values, and dump. An
-- encoder that returns `none` throws.
pub record JsonLibrary : Type 1 where
  pub Json : Type 0
  pub parse : Text → Option Json
  pub is_object : Json → Bool
  pub at : Json → Text → Option Json
  pub as_string : Json → Option Text
  pub as_boolean : Json → Option Bool
  pub as_unsigned : Json → Option ℕ
  pub string : Text → Json
  pub boolean : Bool → Json
  pub number : ℕ → Json
  pub array : List Json → Json
  pub object : List (Text × Json) → Json
  -- none is the exception for a text that is not UTF-8.
  pub dump : Json → Option Text

unfoldable pub policy_to_string : ModelLoadPolicy → Text
policy_to_string on_demand = lit "on_demand"
policy_to_string always_loaded = lit "always_loaded"

unfoldable pub parse_policy : Text → Option ModelLoadPolicy
parse_policy value =
    if text_eq value (lit "on_demand")
    then some on_demand
    else if text_eq value (lit "always_loaded")
    then some always_loaded
    else none

unfoldable pub size_to_string : ModelSize → Text
size_to_string ModelSize.tiny = lit "tiny"
size_to_string ModelSize.base = lit "base"
size_to_string ModelSize.small = lit "small"
size_to_string ModelSize.medium = lit "medium"
size_to_string ModelSize.large = lit "large"

unfoldable pub state_to_string : ServiceState → Text
state_to_string ServiceState.idle = lit "idle"
state_to_string ServiceState.recording = lit "recording"
state_to_string ServiceState.processing = lit "processing"
state_to_string ServiceState.error = lit "error"

-- ParsedMessage: the type, or the error.
pub data ParsedMessage : Type 0 where
  typed : Text → ParsedMessage
  malformed : Text → ParsedMessage

-- DecodedSetConfig: the error, or the configuration.
pub data DecodedSetConfig : Type 0 where
  decoded : Configuration → DecodedSetConfig
  decode_error : Text → DecodedSetConfig

abbrev message_error : Text
message_error = lit "message must be a JSON object with a string \"type\" field"

-- One field of a set_config request: absent, of the wrong type, or a value to merge.
pub data Field (A : Type 0) : Type 0 where
  absent wrong : Field A
  given : A → Field A

and_then : DecodedSetConfig → (Configuration → DecodedSetConfig) → DecodedSetConfig
and_then (decode_error message) f = decode_error message
and_then (decoded c) f = f c

merge :
    {A : Type 0}
    → Field A
    → Text
    → (A → Configuration → DecodedSetConfig)
    → Configuration
    → DecodedSetConfig
merge absent message set c = decoded c
merge wrong message set c = decode_error message
merge (given a) message set c = set a c

set_policy : Text → Configuration → DecodedSetConfig
set_policy value c = elim (parse_policy value) [
  | none ↦ decode_error (lit "model_load_policy must be \"on_demand\" or \"always_loaded\"")
  | some policy ↦ decoded (record c { model_load_policy = policy })
]

module _ (json : JsonLibrary) where
  open json use {
    Json, parse, is_object, at, as_string, as_boolean, as_unsigned, string, boolean, number, array,
    object, dump,
  }

  -- parse(line) if it is an object.
  parse_object : Text → Option Json
  parse_object line = elim (parse line) [
    | none ↦ none
    | some value ↦ if is_object value then some value else none
  ]

  field : {A : Type 0} → (Json → Option A) → Json → Text → Field A
  field convert value key = elim (at value key) [
    | none ↦ absent
    | some v ↦ elim (convert v) [ none ↦ wrong | some a ↦ given a ]
  ]

  unfoldable pub parse_message : Text → ParsedMessage
  unfolding parse_object field
  parse_message line = elim (parse_object line) [
    | none ↦ malformed message_error
    | some value ↦ elim (field as_string value (lit "type")) [
      | absent ↦ malformed message_error
      | wrong ↦ malformed message_error
      | given type ↦ typed type
    ]
  ]

  unfoldable pub decode_cancel_job : Text → Option SessionId
  unfolding parse_object field
  decode_cancel_job line = elim (parse_object line) [
    | none ↦ none
    | some value ↦ elim (field as_unsigned value (lit "session_id")) [
      | absent ↦ none
      | wrong ↦ none
      | given id ↦ some id
    ]
  ]

  merge_fields : Json → Configuration → DecodedSetConfig
  merge_fields value base =
      and_then
        (merge (field as_string value (lit "default_language"))
          (lit "default_language must be a string")
          (λ v c. decoded (record c { default_language = v })) base)
        λ c₁.
          and_then
            (merge (field as_string value (lit "selected_model"))
              (lit "selected_model must be a string")
              (λ v c. decoded (record c { selected_model = v })) c₁)
            λ c₂.
              and_then
                (merge (field as_boolean value (lit "auto_clipboard"))
                  (lit "auto_clipboard must be a boolean")
                  (λ v c. decoded (record c { auto_clipboard = v })) c₂)
                λ c₃.
                  and_then
                    (merge (field as_string value (lit "model_load_policy"))
                      (lit "model_load_policy must be a string") set_policy c₃)
                    λ c₄.
                      merge (field as_string value (lit "transcription_prompt"))
                        (lit "transcription_prompt must be a string")
                        (λ v c. decoded (record c { transcription_prompt = v })) c₄

  unfoldable pub decode_set_config : Text → Configuration → DecodedSetConfig
  unfolding parse_object field merge and_then set_policy merge_fields
  decode_set_config line base = elim (parse_object line) [
    | none ↦ decode_error (lit "message must be a JSON object")
    | some value ↦ merge_fields value base
  ]

  unfoldable pub encode_ack : Text → Option Text
  encode_ack type = dump (object ((lit "type", string type) ∷ (lit "ok", boolean true) ∷ []))

  unfoldable pub encode_error : Text → Text → Option Text
  encode_error type message = dump (
      object (
        (lit "type", string type) ∷ (lit "ok", boolean false) ∷ (lit "error", string message) ∷ []))

  unfoldable pub encode_queued : Text → QueuedJob → Option Text
  encode_queued type job = dump (
      object (
        (lit "type", string type)
        ∷ (lit "ok", boolean true)
        ∷ (lit "session_id", number job.session_id)
        ∷ (lit "position", number job.position)
        ∷ []))

  unfoldable pub id_field : Text → Option SessionId → List (Text × Json)
  id_field key none = []
  id_field key (some id) = (key, number id) ∷ []

  unfoldable pub encode_state : Text → SessionStatus → Option Text
  unfolding id_field
  encode_state type status = dump (
      object (
        (lit "type", string type)
          ∷ (lit "ok", boolean true)
          ∷ (lit "state", string (state_to_string status.state))
          ∷ (lit "queued", number status.queued)
          ∷ (lit "processing", boolean status.processing)
          ∷ id_field (lit "last_completed") status.last_completed
        ++ id_field (lit "last_failed") status.last_failed))

  unfoldable pub encode_config : Text → Configuration → Option Text
  encode_config type c = dump (
      object (
        (lit "type", string type)
        ∷ (lit "ok", boolean true)
        ∷ (lit "default_language", string c.default_language)
        ∷ (lit "selected_model", string c.selected_model)
        ∷ (lit "auto_clipboard", boolean c.auto_clipboard)
        ∷ (lit "model_load_policy", string (policy_to_string c.model_load_policy))
        ∷ (lit "transcription_prompt", string c.transcription_prompt)
        ∷ []))

  model_object : Model → Json
  model_object m = object (
      (lit "name", string m.name)
      ∷ (lit "size", string (size_to_string m.size))
      ∷ (lit "supported_language", string m.supported_language)
      ∷ (lit "path", string m.path)
      ∷ (lit "backend", string m.backend)
      ∷ [])

  unfoldable pub encode_models : Text → List Model → Option Text
  unfolding model_object
  encode_models type models = dump (
      object (
        (lit "type", string type)
        ∷ (lit "ok", boolean true)
        ∷ (lit "models", array (map model_object models))
        ∷ []))
