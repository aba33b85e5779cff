-- ===== src/Session/Live/Commit.antt =====
-- What the live preview commits: live_transcriber.cpp on recognised words.
use mathlib.Core.Path.{subst}
use yoru_speech.Common.{
  ℕ, ◌-◌, ◌<◌, ltb, ◌≡◌, refl, sym, ap, inl, inr, ◌⊎◌, min, false, true, List, [], ◌∷◌, ◌++◌, Text,
  arith, length, is_empty, Bool-cases, Extends, Extends-refl, Extends-append, if◌then◌else◌,
}
use yoru_speech.Session.Words.{join_words, common_prefix_length, overlap_prefix_length}
use yoru_speech.Session.Words.Agreement.{
  match_at, common_prefix_length_lem, overlap_prefix_length_lem,
}
use yoru_speech.Session.Silence.{Floats, samples_in}
use yoru_speech.Session.Live.{
  Live, LiveConfig, commit, skip_overlap, close_segment, safe_upper, commit_agreed, must_close,
  take_words,
}

commit-Extends :
    (words : List Text) (a b : ℕ) (l : Live)
    → Extends l.committed_text (commit words a b l).committed_text
unfolding commit
commit-Extends words a b l = elim (Bool-cases (is_empty (join_words words a b))) [
  | inl e ↦ rw (e, commit) (Extends-refl l.committed_text)
  | inr e ↦ elim (Bool-cases (is_empty l.committed_text)) [
    | inl f ↦ rw (e, f, commit) (join_words words a b, ground arith)
    | inr f ↦ rw (e, f, commit) (Extends-append l.committed_text (32 ∷ join_words words a b))
  ]
]

-- The text that a commit of words[a, b) makes of `text`.
abbrev pub with_words : Text → List Text → ℕ → ℕ → Text
with_words text words a b =
    let new_text = join_words words a b in
    if is_empty new_text then text else if is_empty text then new_text else text ++ 32 ∷ new_text

commit_lem :
    (words : List Text) (a b : ℕ) (l : Live)
    → commit words a b l ≡ record l { committed_text = with_words l.committed_text words a b }
unfolding commit
commit_lem words a b l = ground arith

skip_overlap-committed :
    (words : List Text) (l : Live) → (skip_overlap words l).committed_text ≡ l.committed_text
unfolding skip_overlap
skip_overlap-committed words l = ground arith

close-Extends :
    (keep size : ℕ) (words : List Text) (l : Live)
    → Extends l.committed_text (close_segment keep size words l).committed_text
unfolding close_segment
close-Extends keep size words l = commit-Extends words l.committed_word_count (length words) l

agreed-Extends :
    (words : List Text) (l : Live) → Extends l.committed_text (commit_agreed words l).committed_text
unfolding commit_agreed
agreed-Extends words l =
    elim (Bool-cases (ltb l.committed_word_count (safe_upper l.previous_words words))) [
      | inl e ↦ rw (e, commit_agreed) (commit-Extends words l.committed_word_count _ l)
      | inr e ↦ rw (e, commit_agreed) (Extends-refl l.committed_text)
    ]

module _ {Sample : Type 0} (floats : Floats Sample) (config : LiveConfig Sample) where
  pub take_words_lem :
      (window : List Sample) (words : List Text) (l : Live)
      → take_words floats config window words l ≡ (
          if must_close floats config window
          then close_segment
              (samples_in config.keep_duration)
              (length window)
              words
              (skip_overlap words l)
          else commit_agreed words (skip_overlap words l))
  unfolding take_words
  take_words_lem window words l = refl

  -- Whatever words are recognised, the committed text only grows at its end.
  pub take_words-Extends :
      (window : List Sample) (words : List Text) (l : Live)
      → Extends l.committed_text (take_words floats config window words l).committed_text
  take_words-Extends window words l =
      subst (λ t. Extends t (take_words floats config window words l).committed_text)
        (skip_overlap-committed words l)
        (rw (take_words_lem window words l) (elim (Bool-cases (must_close floats config window)) [
          | inl e ↦ rw e (
              close-Extends (samples_in config.keep_duration) (length window) words
                (skip_overlap words l))
          | inr e ↦ rw e (agreed-Extends words (skip_overlap words l))
        ]))

agreed_count :
    (previous words : List Text)
    → safe_upper previous words ≡ min (common_prefix_length previous words) (length words - 1)
unfolding safe_upper
agreed_count previous [] = omega arith
agreed_count previous (w ∷ ws) = ground arith

stops :
    (previous words : List Text)
    → let n = min (common_prefix_length previous words) (length words - 1) in
      (n ≡ length words - 1) ⊎ (match_at previous words n ≡ false)
stops previous words =
    elim (Bool-cases (ltb (common_prefix_length previous words) (length words - 1))) [
      | inl h ↦
          let same : min (common_prefix_length previous words) (length words - 1)
              ≡ common_prefix_length previous words =
            ground arith in
          inr (rw same ((common_prefix_length_lem previous words).3))
      | inr h ↦ inl (ground arith)
    ]

-- LocalAgreement-2. Without a forced commit, the words from the committed count on are appended up
-- to the n-th, and none if n is not beyond that count. Each of the first n words matches the word of
-- the previous tick at its place; n stops before the last word, or else at the first word that does
-- not match. The tail is all that follows, and the words are kept for the next tick.
pub commit_agreed_lem :
    (words : List Text) (l : Live)
    → let l' = commit_agreed words l in
      let n = min (common_prefix_length l.previous_words words) (length words - 1) in
      ((i : ℕ) → i < n → match_at l.previous_words words i ≡ true)
      × ((n ≡ length words - 1) ⊎ (match_at l.previous_words words n ≡ false))
      × (l'.committed_text ≡ (
          if ltb l.committed_word_count n
          then with_words l.committed_text words l.committed_word_count n
          else l.committed_text))
      × (l'.committed_word_count
          ≡ (if ltb l.committed_word_count n then n else l.committed_word_count))
      × (l'.tail_text ≡ join_words words l'.committed_word_count (length words))
      × (l'.previous_words ≡ words)
unfolding commit_agreed
commit_agreed_lem words l =
    let n = min (common_prefix_length l.previous_words words) (length words - 1) in
    let agree = common_prefix_length_lem l.previous_words words in
    let count = agreed_count l.previous_words words in
    (
      λ i h. agree.2 i (omega arith),
      stops l.previous_words words,
      ground (arith, count, commit_lem words l.committed_word_count n l),
      ground (arith, count),
      ground (arith, count),
      ground (arith, count),
    )

-- close_segment forces a commit of the words `old`; skip_overlap, when it is called next and on the words
-- `new`, counts exactly the first overlap_prefix_length of them as committed and forgets `old`; and a
-- close_segment on `new` after that appends the rest of them to the committed text.
pub segment_boundary :
    (keep size keep' size' : ℕ) (old new : List Text) (l : Live)
    → let l' = close_segment keep size old l in
      let k = overlap_prefix_length old new in
      ((skip_overlap new l').committed_word_count ≡ k)
      × ((skip_overlap new l').carried_words ≡ [])
      × ((close_segment keep' size' new (skip_overlap new l')).committed_text
          ≡ with_words l'.committed_text new k (length new))
unfolding close_segment skip_overlap
segment_boundary keep size keep' size' [] new l =
    let none_carried : overlap_prefix_length [] new ≡ 0 =
      omega (arith, (overlap_prefix_length_lem [] new).0) in
    (
      sym none_carried,
      refl,
      rw none_carried (ap (λ x. x.committed_text) (commit_lem new 0 (length new) _)),
    )
segment_boundary keep size keep' size' (w ∷ ws) new l = (
  refl,
  refl,
  ap (λ x. x.committed_text) (commit_lem new (overlap_prefix_length (w ∷ ws) new) (length new) _),
)
