-- ===== src/Audio/Recording.antt =====
-- domains/audio/recording.hpp and recording.cpp. The float samples are of an abstract type.
use yoru_speech.Common.{ℕ, ◌*◌, ◌/◌, ◌||◌, List, length, ◌==◌, if◌then◌else◌}

pub record Recording (Sample : Type 0) : Type 0 where
  pub samples : List Sample
  pub sample_rate : ℕ
  pub channels : ℕ

-- kSampleRate and kChannels of capture_device.hpp.
abbrev pub sample_rate_hz : ℕ
sample_rate_hz = 16000

abbrev pub channel_count : ℕ
channel_count = 1

-- In milliseconds. The widened product does not overflow below 2^63 / 1000 frames.
unfoldable pub duration : {Sample : Type 0} → Recording Sample → ℕ
duration r =
    if r.sample_rate == 0 || r.channels == 0
    then 0
    else (length r.samples / r.channels) * 1000 / r.sample_rate
