-- ===== src/Speech/Paths/Extensions.antt =====
-- How a file name falls into stem and extension.
use yoru_speech.Common.{
  ℕ, zero, suc, ◌≡◌, ◌≢◌, refl, ap, inl, inr, false, Option, none, some, List, [], ◌∷◌, ◌++◌,
  append-nil, Text, lit, text_eq, Bool-cases, length, take, drop, take-append-drop, arith,
}
use yoru_speech.Speech.Paths.{last_dot, stem, stem_at, extension, extension_at}

stem_at-extension_at :
    (name : Text) (dot : Option ℕ) → stem_at name dot ++ extension_at name dot ≡ name
unfolding stem_at extension_at
stem_at-extension_at name none = append-nil name
stem_at-extension_at name (some zero) = append-nil name
stem_at-extension_at name (some (suc i)) = take-append-drop (suc i) name

pub stem-extension : (name : Text) → stem name ++ extension name ≡ name
unfolding stem extension
stem-extension name = elim (Bool-cases (text_eq name (46 ∷ 46 ∷ []))) [
  | inl e ↦ rw e (append-nil name)
  | inr e ↦ rw e (stem_at-extension_at name (last_dot name))
]

last_dot-append : (name : Text) → last_dot (name ++ lit ".bin") ≡ some (length name)
unfolding last_dot lit
last_dot-append [] = refl
last_dot-append (c ∷ cs) = rw (last_dot-append cs) refl

take_front {ℓ} : {A : Type ℓ} (xs ys : List A) → take (length xs) (xs ++ ys) ≡ xs
take_front [] ys = refl
take_front (x ∷ xs) ys = ap (◌∷◌ x) (take_front xs ys)

drop_front {ℓ} : {A : Type ℓ} (xs ys : List A) → drop (length xs) (xs ++ ys) ≡ ys
drop_front [] ys = refl
drop_front (x ∷ xs) ys = drop_front xs ys

not_dots : (c : ℕ) (cs : Text) → text_eq ((c ∷ cs) ++ lit ".bin") (46 ∷ 46 ∷ []) ≡ false
unfolding text_eq lit
not_dots c [] = ground arith
not_dots c (d ∷ []) = ground arith
not_dots c (d ∷ e ∷ ds) = ground arith

-- A file name with a name in front of ".bin".
pub split_bin :
    (c : ℕ) (cs : Text)
    → (stem ((c ∷ cs) ++ lit ".bin") ≡ c ∷ cs) × (extension ((c ∷ cs) ++ lit ".bin") ≡ lit ".bin")
unfolding stem extension stem_at extension_at
split_bin c cs =
    rw (not_dots c cs, last_dot-append (c ∷ cs))
      (ap (◌∷◌ c) (take_front cs (lit ".bin")), drop_front cs (lit ".bin"))

nil-ne-bin : ◌≡◌ {A = Text} [] (lit ".bin") → ⊥
unfolding lit
nil-ne-bin h = cc

stem_at-ne-nil :
    (name : Text) (dot : Option ℕ) → extension_at name dot ≡ lit ".bin" → stem_at name dot ≢ []
unfolding stem_at extension_at lit
stem_at-ne-nil name none h = absurd (nil-ne-bin h)
stem_at-ne-nil name (some zero) h = absurd (nil-ne-bin h)
stem_at-ne-nil [] (some (suc i)) h = absurd (nil-ne-bin h)
stem_at-ne-nil (c ∷ cs) (some (suc i)) h = ground arith

pub stem-ne-nil : (name : Text) → extension name ≡ lit ".bin" → stem name ≢ []
unfolding stem extension lit
stem-ne-nil name h = elim (Bool-cases (text_eq name (46 ∷ 46 ∷ []))) [
  | inl e ↦ absurd (nil-ne-bin (rw e at h))
  | inr e ↦ rw e (stem_at-ne-nil name (last_dot name) (rw e at h))
]
