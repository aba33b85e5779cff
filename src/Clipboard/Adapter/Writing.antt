-- ===== src/Clipboard/Adapter/Writing.antt =====
-- The loop of WlClipboardAdapter::copy that writes the text to the pipe.
use yoru_speech.Common.{
  Bool, Bool-cases, ◌<◌, ◌==◌, ==_iff, ℕ, zero, suc, ◌≤◌, ◌≡◌, refl, sym, ap, ◌∙◌, ◌⊎◌, inl, inr,
  true, false, List, [], ◌∷◌, ◌++◌, Text, length, length-drop, take, drop, take-append-drop,
  Extends, arith, append_assoc,
}
use mathlib.Core.Path.{subst}
use yoru_speech.Clipboard.Adapter.{Kernel, blocks_turn, blocks_from, Call, write_turn, write_from}
use yoru_speech.Clipboard.Adapter.Waiting.{Held, after_call, after_calls, written}

write_turn-Extends :
    (next : Text → List Call)
    → ((rest : Text) → Extends (written (next rest)) rest)
    → (taken : ℕ) (rest : Text) → Extends (written (write_turn next taken rest)) rest
unfolding write_turn
write_turn-Extends next after zero rest = (rest, refl)
write_turn-Extends next after (suc more) rest =
    let (left, e) = after (drop (suc more) rest) in
    (
      left,
      sym (take-append-drop (suc more) rest)
          ∙ ap (λ t. take (suc more) rest ++ t) e
          ∙ sym (append_assoc (take (suc more) rest) (written (next (drop (suc more) rest))) left),
    )

pub write_from-Extends :
    (left : ℕ) (writes : ℕ → ℕ) (n : ℕ) (rest : Text)
    → Extends (written (write_from left writes n rest)) rest
unfolding write_from
write_from-Extends zero writes n rest = (rest, refl)
write_from-Extends (suc left) writes n [] = ([], refl)
write_from-Extends (suc left) writes n (c ∷ cs) =
    write_turn-Extends (write_from left writes (suc n)) (write_from-Extends left writes (suc n))
      (writes n) (c ∷ cs)

-- With the write end open and at least as many turns as bytes, the loop keeps what the parent holds.
abbrev writing : Held
writing = record { read_end = false; write_end = true; child = true }

write_turn-writing :
    (next : Text → List Call) (later : List Call)
    → ((rest : Text) → after_calls writing (next rest ++ later) ≡ after_calls writing later)
    → (taken : ℕ) (rest : Text)
    → after_calls writing (write_turn next taken rest ++ later) ≡ after_calls writing later
unfolding write_turn after_calls after_call
write_turn-writing next later after zero rest = refl
write_turn-writing next later after (suc more) rest = after (drop (suc more) rest)

pub write_from-writing :
    (left : ℕ) (writes : ℕ → ℕ) (n : ℕ) (rest : Text) (later : List Call)
    → after_calls writing (write_from left writes n rest ++ later) ≡ after_calls writing later
unfolding write_from after_calls after_call
write_from-writing zero writes n rest later = refl
write_from-writing (suc left) writes n [] later = refl
write_from-writing (suc left) writes n (c ∷ cs) later =
    write_turn-writing (write_from left writes (suc n)) later
      (λ rest. write_from-writing left writes (suc n) rest later) (writes n) (c ∷ cs)

-- All is written, or a write took nothing.
abbrev pub AllOrStopped : (ℕ → ℕ) → Text → List Call → Type 0
AllOrStopped writes text calls = (written calls ≡ text) ⊎ ((i : ℕ) × (writes i ≡ 0))

write_turn_all :
    (next : Text → List Call) (writes : ℕ → ℕ) (n taken left : ℕ) (c : ℕ) (cs : Text)
    → writes n ≡ taken
    → ((rest : Text) → length rest ≤ left → AllOrStopped writes rest (next rest))
    → length (c ∷ cs) ≤ suc left
    → AllOrStopped writes (c ∷ cs) (write_turn next taken (c ∷ cs))
unfolding write_turn
write_turn_all next writes n zero left c cs e after h = inr (n, e)
write_turn_all next writes n (suc more) left c cs e after h =
    elim (after (drop more cs) (omega (arith, length-drop more cs))) [
      | inl all ↦
          inl (ap (λ t. take (suc more) (c ∷ cs) ++ t) all ∙ take-append-drop (suc more) (c ∷ cs))
      | inr stopped ↦ inr stopped
    ]

pub write_from_all :
    (left : ℕ) (writes : ℕ → ℕ) (n : ℕ) (rest : Text)
    → length rest ≤ left
    → AllOrStopped writes rest (write_from left writes n rest)
unfolding write_from
write_from_all zero writes n [] h = inl refl
write_from_all zero writes n (c ∷ cs) h = absurd (omega arith)
write_from_all (suc left) writes n [] h = inl refl
write_from_all (suc left) writes n (c ∷ cs) h =
    write_turn_all (write_from left writes (suc n)) writes n (writes n) left c cs refl
      (λ rest fits. write_from_all left writes (suc n) rest fits) h

-- From the n-th on, the write that never returns, and before it only writes that took something.
abbrev pub Stuck : Kernel → ℕ → Type 0
Stuck k n =
    (i : ℕ) × (n ≤ i)
    × (k.blocks i ≡ true)
    × ((j : ℕ) → n ≤ j → j < i → (k.blocks j ≡ false) × (1 ≤ k.writes j))

Stuck-earlier :
    (k : Kernel) (n : ℕ) → k.blocks n ≡ false → 1 ≤ k.writes n → Stuck k (suc n) → Stuck k n
Stuck-earlier k n free took (i, from, b, before) = (
  i,
  omega (arith, from),
  b,
  λ j above below. elim (Bool-cases (j == n)) [
    | inl e ↦
        subst (λ m. (k.blocks m ≡ false) × (1 ≤ k.writes m)) (sym ((==_iff j n).0 e)) (free, took)
    | inr e ↦ before j (ground (arith, above, e)) below
  ],
)

blocks_turn-Stuck :
    (k : Kernel) (n : ℕ) (next : Text → Bool)
    → k.blocks n ≡ false
    → ((rest : Text) → next rest ≡ true → Stuck k (suc n))
    → (taken : ℕ) (rest : Text) → k.writes n ≡ taken
    → blocks_turn next taken rest ≡ true
    → Stuck k n
unfolding blocks_turn
blocks_turn-Stuck k n next free later zero rest e h = absurd (ground (arith, h))
blocks_turn-Stuck k n next free later (suc more) rest e h =
    Stuck-earlier k n free (omega (arith, e)) (later (drop (suc more) rest) h)

pub blocks_from-Stuck :
    (left : ℕ) (k : Kernel) (n : ℕ) (rest : Text) → blocks_from left k n rest ≡ true → Stuck k n
unfolding blocks_from
blocks_from-Stuck zero k n rest h = absurd (ground (arith, h))
blocks_from-Stuck (suc left) k n [] h = absurd (ground (arith, h))
blocks_from-Stuck (suc left) k n (c ∷ cs) h = elim (Bool-cases (k.blocks n)) [
  | inl b ↦ (n, omega arith, b, λ j above below. absurd (omega (arith, above, below)))
  | inr b ↦
      blocks_turn-Stuck k n (blocks_from left k (suc n)) b (blocks_from-Stuck left k (suc n))
        (k.writes n) (c ∷ cs) refl (ground (arith, h, b))
]
