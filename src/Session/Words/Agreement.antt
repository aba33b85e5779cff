-- ===== src/Session/Words/Agreement.antt =====
-- common_prefix_length and overlap_prefix_length of live_transcriber.cpp.
use yoru_speech.Common.{
  ℕ, leb, zero, suc, ◌-◌, ◌≤◌, ◌<◌, min, ◌≡◌, refl, inl, inr, Bool, true, false, List, [], ◌∷◌,
  Text, arith, length, length-drop, take, drop, Bool-cases,
}
use yoru_speech.Session.Words.{
  words_match, common_prefix_length, all_match, overlap_from, overlap_prefix_length,
}

-- Both lists have a word at the index, and the two match.
abbrev pub match_at : List Text → List Text → ℕ → Bool
match_at [] bs i = false
match_at (a ∷ as') [] i = false
match_at (a ∷ as') (b ∷ bs) zero = words_match a b
match_at (a ∷ as') (b ∷ bs) (suc i) = match_at as' bs i

-- The first `common_prefix_length` words of the two lists match one by one, and the next two words,
-- if there are two, do not.
pub common_prefix_length_lem :
    (as' bs : List Text)
    → let n = common_prefix_length as' bs in
      (n ≤ length as')
      × (n ≤ length bs)
      × ((i : ℕ) → i < n → match_at as' bs i ≡ true)
      × (match_at as' bs n ≡ false)
unfolding common_prefix_length
common_prefix_length_lem [] bs = (omega arith, omega arith, λ i h. absurd (omega arith), refl)
common_prefix_length_lem (a ∷ as') [] =
    (omega arith, omega arith, λ i h. absurd (omega arith), refl)
common_prefix_length_lem (a ∷ as') (b ∷ bs) = elim (Bool-cases (words_match a b)) [
  | inl e ↦
      let (p, q, r, s) = common_prefix_length_lem as' bs in
      rw e (omega arith, omega arith, elim [ zero ↦ λ h. e | suc i ↦ λ h. r i (omega arith) ], s)
  | inr e ↦ rw e (omega arith, omega arith, λ i h. absurd (omega arith), e)
]

all_match-true :
    (as' bs : List Text) (k : ℕ)
    → length as' ≡ k
    → k ≤ length bs
    → all_match as' (take k bs) ≡ true
    → (i : ℕ) → i < k
    → match_at as' bs i ≡ true
unfolding all_match
all_match-true [] bs k e h t i l = absurd (omega arith)
all_match-true (a ∷ as') [] k e h t i l = absurd (omega arith)
all_match-true (a ∷ as') (b ∷ bs) zero e h t i l = absurd (omega arith)
all_match-true (a ∷ as') (b ∷ bs) (suc k) e h t zero l = ground arith
all_match-true (a ∷ as') (b ∷ bs) (suc k) e h t (suc i) l =
    all_match-true as' bs k (omega arith) (omega arith) (ground arith) i (omega arith)

all_match-false :
    (as' bs : List Text) (k : ℕ)
    → length as' ≡ k
    → k ≤ length bs
    → all_match as' (take k bs) ≡ false
    → (i : ℕ) × (i < k) × (match_at as' bs i ≡ false)
unfolding all_match
all_match-false [] bs k e h t = absurd (ground arith)
all_match-false (a ∷ as') [] k e h t = absurd (omega arith)
all_match-false (a ∷ as') (b ∷ bs) zero e h t = absurd (omega arith)
all_match-false (a ∷ as') (b ∷ bs) (suc k) e h t = elim (Bool-cases (words_match a b)) [
  | inl m ↦
      let (i, l, f) = all_match-false as' bs k (omega arith) (omega arith) (ground arith) in
      (suc i, omega arith, f)
  | inr m ↦ (0, omega arith, m)
]

-- The last k words of `previous` match the first k of `new`; some pair of them does not.
abbrev pub Overlaps : List Text → List Text → ℕ → Type 0
Overlaps previous new k =
    (i : ℕ) → i < k → match_at (drop (length previous - k) previous) new i ≡ true

abbrev pub Differs : List Text → List Text → ℕ → Type 0
Differs previous new k =
    (i : ℕ) × (i < k) × (match_at (drop (length previous - k) previous) new i ≡ false)

le_suc_cases {ℓ} : {P : Type ℓ} (n j : ℕ) → j ≤ suc n → (j ≤ n → P) → (j ≡ suc n → P) → P
le_suc_cases n j l below at = elim (Bool-cases (leb j n)) [
  | inl e ↦ below (ground arith)
  | inr e ↦ at (ground arith)
]

-- The longest candidate, if the loop passes over it.
candidate-Differs :
    (n : ℕ) (previous new : List Text) (j : ℕ)
    → suc n ≤ length previous
    → suc n ≤ length new
    → all_match (drop (length previous - suc n) previous) (take (suc n) new) ≡ false
    → j ≡ suc n
    → Differs previous new j
candidate-Differs n previous new j p q e same = rw same (
    all_match-false (drop (length previous - suc n) previous) new (suc n)
      (omega (arith, length-drop (length previous - suc n) previous)) q e)

overlap_from_lem :
    (n : ℕ) (previous new : List Text)
    → n ≤ length previous
    → n ≤ length new
    → let k = overlap_from n previous new in
      (k ≤ n) × Overlaps previous new k × ((j : ℕ) → k < j → j ≤ n → Differs previous new j)
unfolding overlap_from
overlap_from_lem zero previous new p q =
    (omega arith, λ i h. absurd (omega arith), λ j h l. absurd (omega arith))
overlap_from_lem (suc n) previous new p q =
    elim (Bool-cases (all_match (drop (length previous - suc n) previous) (take (suc n) new))) [
      | inl e ↦ rw e (
        omega arith,
        all_match-true (drop (length previous - suc n) previous) new (suc n)
            (omega (arith, length-drop (length previous - suc n) previous)) q e,
        λ j h l. absurd (omega arith),
      )
      | inr e ↦
          let (bound, fits, above) = overlap_from_lem n previous new (omega arith) (omega arith) in
          rw e (
            omega arith,
            fits,
            λ j h l. le_suc_cases n j l (above j h) (candidate-Differs n previous new j p q e),
          )
    ]

-- overlap_prefix_length is the greatest k for which the last k words of the previous segment match,
-- one by one, the first k words of the new one.
pub overlap_prefix_length_lem :
    (previous new : List Text)
    → let k = overlap_prefix_length previous new in
      (k ≤ min (length previous) (length new))
      × Overlaps previous new k
      × ((j : ℕ) → k < j → j ≤ min (length previous) (length new) → Differs previous new j)
unfolding overlap_prefix_length
overlap_prefix_length_lem previous new =
    overlap_from_lem (min (length previous) (length new)) previous new (omega arith) (omega arith)
