-- ===== src/Config/Toml.antt =====
-- domains/config/toml_codec.hpp and toml_codec.cpp. The toml++ library is a parameter.
pub mod Validity
pub mod RoundTrip
use yoru_speech.Common.{
  ℕ, leb, ◌==◌, Bool, true, false, not, ◌&&◌, ◌||◌, List, [], ◌∷◌, ◌++◌, Option, none, some, Text,
  lit, text_eq, is_empty, if◌then◌else◌,
}
use yoru_speech.Config.Configuration.{ModelLoadPolicy, on_demand, always_loaded, Configuration}

pub data Parsed (Table : Type 0) : Type 0 where
  parsed : Table → Parsed Table
  -- With the description of the toml::parse_error.
  not_parsed : Text → Parsed Table

-- What the codec uses of toml++: parse, table::contains, table[key].value<T>(), table::insert and
-- operator<<.
pub record TomlLibrary : Type 1 where
  pub Table : Type 0
  pub parse : Text → Parsed Table
  pub contains : Table → Text → Bool
  pub string_at : Table → Text → Option Text
  pub bool_at : Table → Text → Option Bool
  pub empty : Table
  pub insert_string : Text → Text → Table → Table
  pub insert_bool : Text → Bool → Table → Table
  pub print : Table → Text

pub record ValidationError : Type 0 where
  pub field : Text
  pub message : Text

pub record DecodedConfiguration : Type 0 where
  pub configuration : Configuration
  pub errors : List ValidationError

-- std::islower in the "C" locale.
unfoldable pub is_lower : ℕ → Bool
is_lower c = leb 97 c && leb c 122

two_lower : Text → Bool
unfolding is_lower
two_lower (a ∷ b ∷ []) = is_lower a && is_lower b
two_lower _ = false

unfoldable pub is_valid_language_code : Text → Bool
unfolding two_lower
is_valid_language_code value = text_eq value (lit "auto") || two_lower value

unfoldable pub is_valid_model_name : Text → Bool
is_valid_model_name value = not (is_empty value)

unfoldable pub to_string : ModelLoadPolicy → Text
to_string on_demand = lit "on_demand"
to_string always_loaded = lit "always_loaded"

unfoldable pub parse_model_load_policy : Text → Option ModelLoadPolicy
parse_model_load_policy value =
    if text_eq value (lit "on_demand")
    then some on_demand
    else if text_eq value (lit "always_loaded")
    then some always_loaded
    else none

abbrev error : Text → Text → ValidationError
error field message = record { field = field; message = message }

abbrev error_unless : Bool → Text → Text → List ValidationError
error_unless valid field message = if valid then [] else error field message ∷ []

abbrev language_message : Text
language_message = lit "must be \"auto\" or a 2-letter language code"

abbrev model_name_message : Text
model_name_message = lit "must not be empty"

abbrev policy_message : Text
policy_message = lit "must be \"on_demand\" or \"always_loaded\""

unfoldable pub validate : Configuration → List ValidationError
validate c =
    error_unless (is_valid_language_code c.default_language) (lit "default_language")
      language_message
    ++ error_unless (is_valid_model_name c.selected_model) (lit "selected_model") model_name_message

-- The semantic checks at the end of decode_toml; a field that fails falls back to its default.
check_language : Configuration → DecodedConfiguration → DecodedConfiguration
check_language defaults d =
    if is_valid_language_code d.configuration.default_language then d else record {
      configuration = record d.configuration { default_language = defaults.default_language };
      errors = d.errors ++ error (lit "default_language") language_message ∷ [];
    }

check_model_name : Configuration → DecodedConfiguration → DecodedConfiguration
check_model_name defaults d =
    if is_valid_model_name d.configuration.selected_model then d else record {
      configuration = record d.configuration { selected_model = defaults.selected_model };
      errors = d.errors ++ error (lit "selected_model") model_name_message ∷ [];
    }

abbrev reject : Text → Text → DecodedConfiguration → DecodedConfiguration
reject field message d = record d { errors = d.errors ++ error field message ∷ [] }

module _ (toml : TomlLibrary) where
  open toml use {
    Table, parse, contains, string_at, bool_at, empty, insert_string, insert_bool, print,
  }

  unfoldable pub table_of : Configuration → Table
  table_of c = insert_string (lit "transcription_prompt") c.transcription_prompt (
      insert_string (lit "model_load_policy") (to_string c.model_load_policy) (
        insert_bool (lit "auto_clipboard") c.auto_clipboard (
          insert_string (lit "selected_model") c.selected_model
            (insert_string (lit "default_language") c.default_language empty))))

  unfoldable pub encode_toml : Configuration → Text
  unfolding table_of
  encode_toml c = print (table_of c)

  -- A field of type T: what is done with the value, or the message if it has another type.
  read_field :
      {A : Type 0}
      → Table
      → Text
      → Option A
      → Text
      → (A → DecodedConfiguration → DecodedConfiguration)
      → DecodedConfiguration
      → DecodedConfiguration
  read_field root field value message accept d =
      if contains root field
      then elim value [ none ↦ reject field message d | some v ↦ accept v d ]
      else d

  accept_policy : Text → DecodedConfiguration → DecodedConfiguration
  accept_policy v d = elim (parse_model_load_policy v) [
    | none ↦ reject (lit "model_load_policy") policy_message d
    | some policy ↦ record d {
      configuration = record d.configuration { model_load_policy = policy };
    }
  ]

  read_fields : Table → DecodedConfiguration → DecodedConfiguration
  read_fields root d =
      let d₁ =
        read_field root (lit "default_language") (string_at root (lit "default_language"))
          (lit "expected a string")
          (λ v e. record e { configuration = record e.configuration { default_language = v } }) d in
      let d₂ =
        read_field root (lit "selected_model") (string_at root (lit "selected_model"))
          (lit "expected a string")
          (λ v e. record e { configuration = record e.configuration { selected_model = v } }) d₁ in
      let d₃ =
        read_field root (lit "auto_clipboard") (bool_at root (lit "auto_clipboard"))
          (lit "expected a boolean")
          (λ v e. record e { configuration = record e.configuration { auto_clipboard = v } }) d₂ in
      let d₄ =
        read_field root (lit "model_load_policy") (string_at root (lit "model_load_policy"))
          (lit "expected a string") accept_policy d₃ in
      read_field root (lit "transcription_prompt") (string_at root (lit "transcription_prompt"))
        (lit "expected a string")
        (λ v e. record e { configuration = record e.configuration { transcription_prompt = v } }) d₄

  unfoldable pub decode_toml : Text → Configuration → DecodedConfiguration
  unfolding read_fields read_field accept_policy check_language check_model_name
  decode_toml toml_source defaults = elim (parse toml_source) [
    | not_parsed description ↦ record {
      configuration = defaults;
      errors = error (lit "<file>") description ∷ [];
    }
    | parsed root ↦ check_model_name defaults (
        check_language defaults
          (read_fields root (record { configuration = defaults; errors = [] })))
  ]
