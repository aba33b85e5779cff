-- ===== src/Common/Prefix.antt =====
-- Prefixes of lists, with the rest kept.
use mathlib.Core.Path.{◌≡◌, refl, sym, ◌∙◌, ap}
use mathlib.Core.List.{List, [], ◌++◌, append-nil, append_assoc}

module _ {ℓ} {A : Type ℓ} where
  -- `ys` continues `xs`.
  abbrev pub Extends : List A → List A → Type ℓ
  Extends xs ys = (rest : List A) × (ys ≡ xs ++ rest)

  pub Extends-refl : (xs : List A) → Extends xs xs
  Extends-refl xs = ([], sym (append-nil xs))

  pub Extends-append : (xs ys : List A) → Extends xs (xs ++ ys)
  Extends-append xs ys = (ys, refl)

  pub Extends-trans : (xs : List A) {ys zs : List A} → Extends xs ys → Extends ys zs → Extends xs zs
  Extends-trans xs (r, p) (s, q) = (r ++ s, q ∙ ap (λ l. l ++ s) p ∙ append_assoc xs r s)
