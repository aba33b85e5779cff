-- ===== src/Config/Paths.antt =====
-- domains/config/configuration_manager.cpp: default_config_path. getenv("XDG_CONFIG_HOME") and
-- getenv("HOME") are the arguments.
use yoru_speech.Common.{Option, none, some, Text, lit, [], ◌≡◌, refl}
use yoru_speech.Speech.Paths.{join_path}

home_directory : Option Text → Text
home_directory none = []
home_directory (some home) = home

base_directory : Option Text → Option Text → Text
unfolding home_directory
base_directory (some xdg_config_home) home = xdg_config_home
base_directory none home = join_path (home_directory home) (lit ".config")

unfoldable pub default_config_path : Option Text → Option Text → Text
unfolding base_directory
default_config_path xdg_config_home home =
    join_path (join_path (base_directory xdg_config_home home) (lit "yoru-speech"))
      (lit "config.toml")

-- A relative ".config" without either.
default_config_path_test : default_config_path none none ≡ lit ".config/yoru-speech/config.toml"
unfolding default_config_path join_path lit
default_config_path_test = refl
