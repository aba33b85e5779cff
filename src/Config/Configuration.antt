-- ===== src/Config/Configuration.antt =====
-- domains/config/configuration.hpp.
use yoru_speech.Common.{Text, lit, Bool, true}

pub data ModelLoadPolicy : Type 0 where
  on_demand always_loaded : ModelLoadPolicy

pub record Configuration : Type 0 where
  pub default_language : Text
  pub selected_model : Text
  pub auto_clipboard : Bool
  pub model_load_policy : ModelLoadPolicy
  pub transcription_prompt : Text

-- The member initialisers.
abbrev pub default_configuration : Configuration
default_configuration = record {
  default_language = lit "auto";
  selected_model = lit "base";
  auto_clipboard = true;
  model_load_policy = on_demand;
  transcription_prompt = lit "";
}
