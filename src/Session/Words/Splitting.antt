-- ===== src/Session/Words/Splitting.antt =====
-- split_words, join_words and strip_trailing_punctuation of live_transcriber.cpp.
use yoru_speech.Common.{
  ℕ, zero, suc, ◌≤◌, ◌≡◌, refl, sym, ap, ◌∙◌, inl, inr, true, false, List, [], ◌∷◌, ◌++◌,
  append-nil, append_assoc, Text, arith, length, take, is_empty, Bool-cases,
}
use yoru_speech.Session.Words.{
  is_space, is_punct, flush, split_from, split_words, append_word, join_from, join_words, char_at,
  strip_end, strip_trailing_punctuation,
}

-- No white space in it.
abbrev pub NoSpace : Text → Type 0
NoSpace [] = Unit
NoSpace (c ∷ cs) = (is_space c ≡ false) × NoSpace cs

-- A word as split_words yields it.
abbrev pub IsWord : Text → Type 0
IsWord w = (is_empty w ≡ false) × NoSpace w

abbrev pub AllWords : List Text → Type 0
AllWords [] = Unit
AllWords (w ∷ ws) = IsWord w × AllWords ws

NoSpace-append : (xs ys : Text) → NoSpace xs → NoSpace ys → NoSpace (xs ++ ys)
NoSpace-append [] ys p q = q
NoSpace-append (x ∷ xs) ys p q = (p.0, NoSpace-append xs ys p.1 q)

flush-AllWords :
    (word : Text) (ws : List Text) → NoSpace word → AllWords ws → AllWords (flush word ws)
unfolding flush
flush-AllWords [] ws p q = q
flush-AllWords (c ∷ cs) ws p q = ((refl, p), q)

split_from-AllWords : (word text : Text) → NoSpace word → AllWords (split_from word text)
unfolding split_from
split_from-AllWords word [] p = flush-AllWords word [] p tt
split_from-AllWords word (c ∷ cs) p = elim (Bool-cases (is_space c)) [
  | inl e ↦ rw e (flush-AllWords word _ p (split_from-AllWords [] cs tt))
  | inr e ↦ rw e (split_from-AllWords (word ++ c ∷ []) cs (NoSpace-append word (c ∷ []) p (e, tt)))
]

-- Reading a word on.
split_from_word :
    (word w rest : Text) → NoSpace w → split_from word (w ++ rest) ≡ split_from (word ++ w) rest
unfolding split_from
split_from_word word [] rest p = rw append-nil
split_from_word word (c ∷ cs) rest p = rw (p.0) (
    split_from_word (word ++ c ∷ []) cs rest p.1
    ∙ ap (λ l. split_from l rest) (append_assoc word (c ∷ []) cs))

-- What join_from makes of the words that follow.
abbrev tail_of : List Text → Text
tail_of [] = []
tail_of (w ∷ ws) = 32 ∷ (w ++ tail_of ws)

join_from_lem :
    (joined : Text) (ws : List Text)
    → is_empty joined ≡ false
    → join_from joined ws ≡ joined ++ tail_of ws
unfolding join_from append_word
join_from_lem [] ws h = ground (arith, h)
join_from_lem (c ∷ cs) [] h = sym (append-nil (c ∷ cs))
join_from_lem (c ∷ cs) (w ∷ ws) h =
    join_from_lem (c ∷ cs ++ 32 ∷ w) ws refl ∙ ap (◌∷◌ c) (append_assoc cs (32 ∷ w) (tail_of ws))

split_tail :
    (word : Text) (ws : List Text)
    → IsWord word
    → AllWords ws
    → split_from word (tail_of ws) ≡ word ∷ ws
unfolding split_from flush is_space
split_tail [] ws p q = ground (arith, p.0)
split_tail (c ∷ cs) [] p q = refl
split_tail (c ∷ cs) (w ∷ ws) p q =
    ap (◌∷◌ (c ∷ cs)) (split_from_word [] w (tail_of ws) q.0.1 ∙ split_tail w ws q.0 q.1)

take_all {ℓ} : {A : Type ℓ} (n : ℕ) (xs : List A) → length xs ≤ n → take n xs ≡ xs
take_all zero [] h = refl
take_all zero (x ∷ xs) h = absurd (omega arith)
take_all (suc n) [] h = refl
take_all (suc n) (x ∷ xs) h = ap (◌∷◌ x) (take_all n xs (omega arith))

join_all : (ws : List Text) → join_words ws 0 (length ws) ≡ join_from [] ws
unfolding join_words
join_all ws = rw (take_all (length ws) ws (omega arith))

split_from-join_from : (ws : List Text) → AllWords ws → split_from [] (join_from [] ws) ≡ ws
unfolding split_from join_from append_word flush
split_from-join_from [] q = refl
split_from-join_from (w ∷ ws) q =
    rw (join_from_lem w ws q.0.0)
      (split_from_word [] w (tail_of ws) q.0.1 ∙ split_tail w ws q.0 q.1)

-- split_words yields only words (not empty, with no white space in them), and it reads back what
-- join_words makes of such words: joining with single spaces and splitting is the identity.
pub split-join :
    (text : Text) (ws : List Text)
    → AllWords ws
    → AllWords (split_words text) × (split_words (join_words ws 0 (length ws)) ≡ ws)
unfolding split_words
split-join text ws q =
    (split_from-AllWords [] text tt, rw (join_all ws) (split_from-join_from ws q))

abbrev pub AllPunct : Text → Type 0
AllPunct [] = Unit
AllPunct (c ∷ cs) = (is_punct c ≡ true) × AllPunct cs

-- No punctuation at the end.
abbrev pub EndsClean : Text → Type 0
EndsClean [] = Unit
EndsClean (c ∷ []) = is_punct c ≡ false
EndsClean (c ∷ d ∷ cs) = EndsClean (d ∷ cs)

EndsClean-last : (xs : Text) (c : ℕ) → is_punct c ≡ false → EndsClean (xs ++ c ∷ [])
EndsClean-last [] c h = h
EndsClean-last (x ∷ []) c h = h
EndsClean-last (x ∷ y ∷ ys) c h = EndsClean-last (y ∷ ys) c h

AllPunct-last : (xs : Text) (c : ℕ) → AllPunct xs → is_punct c ≡ true → AllPunct (xs ++ c ∷ [])
AllPunct-last [] c p h = (h, tt)
AllPunct-last (x ∷ xs) c p h = (p.0, AllPunct-last xs c p.1 h)

take-suc : (n : ℕ) (w : Text) → suc n ≤ length w → take (suc n) w ≡ take n w ++ char_at w n ∷ []
unfolding char_at
take-suc n [] h = absurd (omega arith)
take-suc zero (c ∷ cs) h = refl
take-suc (suc n) (c ∷ cs) h = ap (◌∷◌ c) (take-suc n cs (omega arith))

-- The loop, down from any index.
strip_end_lem :
    (n : ℕ) (w : Text)
    → n ≤ length w
    → EndsClean (take (strip_end n w) w)
      × ((rest : Text) × (take n w ≡ take (strip_end n w) w ++ rest) × AllPunct rest)
unfolding strip_end
strip_end_lem zero w h = (tt, ([], refl, tt))
strip_end_lem (suc n) w h = elim (Bool-cases (is_punct (char_at w n))) [
  | inl e ↦
      let (clean, (rest, p, all)) = strip_end_lem n w (omega arith) in
      rw e (
        clean,
        (
          rest ++ char_at w n ∷ [],
          take-suc n w h
              ∙ ap (λ l. l ++ char_at w n ∷ []) p
              ∙ append_assoc (take (strip_end n w) w) rest (char_at w n ∷ []),
          AllPunct-last rest (char_at w n) all e,
        ),
      )
  | inr e ↦ rw e (
    rw (take-suc n w h) (EndsClean-last (take n w) (char_at w n) e),
    ([], sym (append-nil _), tt),
  )
]

-- strip_trailing_punctuation cuts off punctuation only, and all of it at the end: what is left does
-- not end in punctuation.
pub strip_trailing_punctuation_lem :
    (w : Text)
    → EndsClean (strip_trailing_punctuation w)
      × ((rest : Text) × (w ≡ strip_trailing_punctuation w ++ rest) × AllPunct rest)
unfolding strip_trailing_punctuation
strip_trailing_punctuation_lem w =
    let (clean, (rest, p, all)) = strip_end_lem (length w) w (omega arith) in
    (clean, (rest, sym (take_all (length w) w (omega arith)) ∙ p, all))
