-- ===== src/Session/Silence.antt =====
-- has_trailing_silence of domains/session/live_transcriber.cpp. The float type and its operations
-- are parameters: nothing is assumed of their rounding.
use yoru_speech.Common.{
  ℕ, zero, suc, ◌↔◌, ◌+◌, ◌-◌, ◌*◌, ◌/◌, ◌%◌, ◌≤◌, ◌<◌, u64_mod, leb, ◌==◌, ◌≡◌, refl, Bool, true,
  false, ◌||◌, List, [], ◌∷◌, length, drop, arith, if◌then◌else◌,
}
use yoru_speech.Audio.Recording.{sample_rate_hz}

pub record Floats (Sample : Type 0) : Type 0 where
  pub zero : Sample
  pub abs : Sample → Sample
  pub add : Sample → Sample → Sample
  pub mul : Sample → Sample → Sample
  -- Division by a size_t that is converted to float.
  pub over : Sample → ℕ → Sample
  pub at_most : Sample → Sample → Bool

-- A duration in milliseconds as a sample count, in std::size_t.
unfoldable pub samples_in : ℕ → ℕ
samples_in ms = ms * sample_rate_hz % u64_mod / 1000

module _ {Sample : Type 0} (floats : Floats Sample) where
  -- The loop over the window at index i: energy_all and energy_trailing.
  energies : ℕ → ℕ → List Sample → Sample → Sample → Sample × Sample
  energies from i [] all trailing = (all, trailing)
  energies from i (x ∷ xs) all trailing =
      let amplitude = floats.abs x in
      energies from (suc i) xs (floats.add all amplitude)
        (if leb from i then floats.add trailing amplitude else trailing)

  unfoldable pub has_trailing_silence : List Sample → ℕ → Sample → Bool
  unfolding energies samples_in
  has_trailing_silence window trailing_duration threshold =
      let trailing = samples_in trailing_duration in
      if leb (length window) trailing || trailing == 0
      then false
      else (let (all, last) =
            energies (length window - trailing) 0 window floats.zero floats.zero in
          floats.at_most (floats.over last trailing)
            (floats.mul threshold (floats.over all (length window))))

  -- The sum of the absolute values, from the left.
  abbrev pub energy : Sample → List Sample → Sample
  energy acc [] = acc
  energy acc (x ∷ xs) = energy (floats.add acc (floats.abs x)) xs

  energies_tail :
      (from i : ℕ) (xs : List Sample) (all trailing : Sample)
      → from ≤ i
      → energies from i xs all trailing ≡ (energy all xs, energy trailing xs)
  unfolding energies
  energies_tail from i [] all trailing h = refl
  energies_tail from i (x ∷ xs) all trailing h = ground (
    arith,
    energies_tail from (suc i) xs (floats.add all (floats.abs x))
        (floats.add trailing (floats.abs x)) (omega arith),
  )

  energies_lem :
      (from k i : ℕ) (xs : List Sample) (all trailing : Sample)
      → from ≡ i + k
      → energies from i xs all trailing ≡ (energy all xs, energy trailing (drop k xs))
  unfolding energies
  energies_lem from zero i xs all trailing h = energies_tail from i xs all trailing (omega arith)
  energies_lem from (suc k) i [] all trailing h = refl
  energies_lem from (suc k) i (x ∷ xs) all trailing h =
      ground (
        arith,
        energies_lem from k (suc i) xs (floats.add all (floats.abs x)) trailing (omega arith),
      )

  -- The detector reports a pause exactly when there is more audio than the trailing span, the span
  -- is not empty, and the mean absolute value of the span's samples is at most `threshold` times
  -- that of all samples, with the sums formed from the left.
  pub has_trailing_silence_lem :
      (window : List Sample) (trailing_duration : ℕ) (threshold : Sample)
      → let n = samples_in trailing_duration in
        (has_trailing_silence window trailing_duration threshold ≡ true) ↔ (
          (n < length window)
          × (0 < n)
          × (floats.at_most
                (floats.over (energy floats.zero (drop (length window - n) window)) n)
                (floats.mul threshold (floats.over (energy floats.zero window) (length window)))
              ≡ true))
  unfolding has_trailing_silence
  has_trailing_silence_lem window trailing_duration threshold =
      let n = samples_in trailing_duration in
      ground (
        arith,
        energies_lem (length window - n) (length window - n) 0 window floats.zero floats.zero
            (omega arith),
      )
