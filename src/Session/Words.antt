-- ===== src/Session/Words.antt =====
-- The word functions of domains/session/live_transcriber.cpp.
pub mod Agreement
pub mod Splitting
use yoru_speech.Common.{
  ℕ, zero, suc, ◌+◌, ◌-◌, min, leb, ◌==◌, Bool, true, false, ◌&&◌, ◌||◌, List, [], ◌∷◌, ◌++◌, Text,
  lit, text_eq, length, take, drop, is_empty, if◌then◌else◌,
}

-- std::isspace in the "C" locale: space, tab, newline, vertical tab, form feed, carriage return.
unfoldable pub is_space : ℕ → Bool
is_space c = c == 32 || (leb 9 c && leb c 13)

-- std::ispunct in the "C" locale: the printing characters that are neither space nor alphanumeric.
unfoldable pub is_punct : ℕ → Bool
is_punct c =
    (leb 33 c && leb c 47)
    || (leb 58 c && leb c 64)
    || (leb 91 c && leb c 96)
    || (leb 123 c && leb c 126)

-- An end of a word that is being read.
flush : Text → List Text → List Text
flush [] words = words
flush (c ∷ cs) words = (c ∷ cs) ∷ words

-- `stream >> word` until it fails; `word` is what was read of the word so far.
split_from : Text → Text → List Text
unfolding flush
split_from word [] = flush word []
split_from word (c ∷ cs) =
    let ended = flush word (split_from [] cs) in
    let longer = split_from (word ++ c ∷ []) cs in if is_space c then ended else longer

unfoldable pub split_words : Text → List Text
unfolding split_from
split_words text = split_from [] text

-- One turn of the loop of join_words.
append_word : Text → Text → Text
append_word [] word = word
append_word (c ∷ cs) word = (c ∷ cs) ++ 32 ∷ word

join_from : Text → List Text → Text
unfolding append_word
join_from joined [] = joined
join_from joined (w ∷ ws) = join_from (append_word joined w) ws

-- Joins words[from_index, to_index) with single spaces; the loop also stops at the last word.
unfoldable pub join_words : List Text → ℕ → ℕ → Text
unfolding join_from
join_words words from_index to_index = join_from [] (drop from_index (take to_index words))

-- word[i]; the loops below stay in range.
char_at : Text → ℕ → ℕ
char_at [] i = 0
char_at (c ∷ cs) zero = c
char_at (c ∷ cs) (suc i) = char_at cs i

-- The loop on `end`.
strip_end : ℕ → Text → ℕ
unfolding char_at
strip_end zero word = 0
strip_end (suc n) word =
    let shorter = strip_end n word in if is_punct (char_at word n) then shorter else suc n

unfoldable pub strip_trailing_punctuation : Text → Text
unfolding strip_end
strip_trailing_punctuation word = take (strip_end (length word) word) word

unfoldable pub words_match : Text → Text → Bool
words_match a b = text_eq (strip_trailing_punctuation a) (strip_trailing_punctuation b)

unfoldable pub common_prefix_length : List Text → List Text → ℕ
common_prefix_length [] bs = 0
common_prefix_length (a ∷ as') [] = 0
common_prefix_length (a ∷ as') (b ∷ bs) =
    let more = suc (common_prefix_length as' bs) in if words_match a b then more else 0

-- The inner loop of overlap_prefix_length, over the k last and the k first words.
all_match : List Text → List Text → Bool
all_match [] bs = true
all_match (a ∷ as') [] = true
all_match (a ∷ as') (b ∷ bs) = words_match a b && all_match as' bs

-- The outer loop: k, k - 1, …, 1.
overlap_from : ℕ → List Text → List Text → ℕ
unfolding all_match
overlap_from zero previous new = 0
overlap_from (suc k) previous new =
    let shorter = overlap_from k previous new in
    if all_match (drop (length previous - suc k) previous) (take (suc k) new)
    then suc k
    else shorter

unfoldable pub overlap_prefix_length : List Text → List Text → ℕ
unfolding overlap_from
overlap_prefix_length previous new = overlap_from (min (length previous) (length new)) previous new
