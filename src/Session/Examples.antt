-- ===== src/Session/Examples.antt =====
-- Session objects, the silence detector and the word functions on small inputs. The floats of the
-- detector are taken to be natural numbers here.
use yoru_speech.Common.{
  ℕ, ◌+◌, ◌*◌, ◌/◌, ◌≤◌, ◌<◌, ◌≡◌, refl, leb, min, true, false, List, [], ◌∷◌, Text, lit, text_eq,
  length, drop,
}
use yoru_speech.Session.Silence.{Floats, has_trailing_silence}
use yoru_speech.Session.Words.{
  split_words, join_words, strip_trailing_punctuation, common_prefix_length, overlap_prefix_length,
  words_match, is_space, is_punct,
}
use yoru_speech.Session.Words.Splitting.{AllWords, split-join}
use yoru_speech.Session.Words.Agreement.{Overlaps, Differs, overlap_prefix_length_lem}

abbrev numbers : Floats ℕ
numbers = record {
  zero = 0;
  abs = λ x. x;
  add = λ x y. x + y;
  mul = λ x y. x * y;
  over = λ x n. x / n;
  at_most = λ x y. leb x y;
}

-- Speech and then silence: 16 samples are a millisecond.
abbrev window : List ℕ
window = 900 ∷ 900 ∷ 0 ∷ 0 ∷ 0 ∷ 0 ∷ 0 ∷ 0 ∷ 0 ∷ 0 ∷ 0 ∷ 0 ∷ 0 ∷ 0 ∷ 0 ∷ 0 ∷ 0 ∷ 0 ∷ []

pause_found :
    (has_trailing_silence numbers window 1 1 ≡ true)
    × (has_trailing_silence numbers (drop 1 window) 0 1 ≡ false)
unfolding has_trailing_silence
pause_found = (refl, refl)

abbrev before : List Text
before = lit "we" ∷ lit "deploy" ∷ lit "it." ∷ []

abbrev after : List Text
after = lit "deploy" ∷ lit "it" ∷ lit "now" ∷ []

words_found :
    (split_words (lit " we deploy  it.") ≡ before)
    × (overlap_prefix_length before after ≡ 2)
    × (common_prefix_length before after ≡ 0)
unfolding split_words overlap_prefix_length common_prefix_length words_match
    strip_trailing_punctuation lit is_space is_punct text_eq
words_found = (refl, refl, refl)

split-join_example :
    AllWords (split_words (lit " we deploy"))
    × (split_words (join_words before 0 (length before)) ≡ before)
unfolding lit is_space
split-join_example = split-join (lit " we deploy") before (
  (refl, (refl, (refl, tt))),
  (
    (refl, (refl, (refl, (refl, (refl, (refl, (refl, tt))))))),
    ((refl, (refl, (refl, (refl, tt)))), tt),
  ),
)

overlap_prefix_length_example :
    let k = overlap_prefix_length before after in
    (k ≤ min (length before) (length after))
    × Overlaps before after k
    × ((j : ℕ) → k < j → j ≤ min (length before) (length after) → Differs before after j)
overlap_prefix_length_example = overlap_prefix_length_lem before after
