-- ===== src/Config/Toml/Validity.antt =====
-- What toml_codec.cpp lets through.
use yoru_speech.Common.{◌≡◌, refl, ◌↔◌, true, [], Text, arith}
use yoru_speech.Config.Configuration.{Configuration}
use yoru_speech.Config.Toml.{
  TomlLibrary, Parsed, parsed, not_parsed, is_valid_language_code, is_valid_model_name, validate,
  check_language, check_model_name, read_fields, DecodedConfiguration, decode_toml,
}

-- validate finds no error exactly in a configuration with a valid language code and a model name.
pub validate_iff :
    (c : Configuration)
    → (validate c ≡ []) ↔ (
        (is_valid_language_code c.default_language ≡ true)
        × (is_valid_model_name c.selected_model ≡ true))
unfolding validate
validate_iff c = ground arith

checked_valid :
    (defaults : Configuration) (d : DecodedConfiguration)
    → validate defaults ≡ []
    → validate (check_model_name defaults (check_language defaults d)).configuration ≡ []
unfolding validate check_model_name check_language
checked_valid defaults d h = ground arith

decode_valid :
    (toml : TomlLibrary) (defaults : Configuration) (p : Parsed toml.Table) (source : Text)
    → toml.parse source ≡ p
    → validate defaults ≡ []
    → validate (decode_toml toml source defaults).configuration ≡ []
unfolding decode_toml
decode_valid toml defaults (parsed root) source e h =
    rw (e, decode_toml)
      (checked_valid defaults
        (read_fields toml root (record { configuration = defaults; errors = [] })) h)
decode_valid toml defaults (not_parsed d) source e h = rw (e, decode_toml) h

-- Whatever the file holds, decode_toml yields a configuration that validate accepts, if it accepts
-- the defaults: a field of the wrong type or with an invalid value never gets through.
pub decode_toml_valid :
    (toml : TomlLibrary) (source : Text) (defaults : Configuration)
    → validate defaults ≡ []
    → validate (decode_toml toml source defaults).configuration ≡ []
decode_toml_valid toml source defaults h =
    decode_valid toml defaults (toml.parse source) source refl h
