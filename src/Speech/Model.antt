-- ===== src/Speech/Model.antt =====
-- domains/speech/model.hpp. A std::filesystem::path is its text.
use yoru_speech.Common.{Text}

pub data ModelSize : Type 0 where
  tiny base small medium large : ModelSize

pub record Model : Type 0 where
  pub name : Text
  pub size : ModelSize
  pub supported_language : Text
  pub path : Text
  pub backend : Text
