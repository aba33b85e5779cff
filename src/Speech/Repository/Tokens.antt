-- ===== src/Speech/Repository/Tokens.antt =====
-- split_tokens of model_repository.cpp against a reading from the right.
use yoru_speech.Common.{
  ◌≡◌, refl, sym, ap, ◌∙◌, inl, inr, false, List, [], ◌∷◌, ◌++◌, append-nil, append_assoc, Text,
  is_empty, Bool-cases, if◌then◌else◌, ℕ,
}
use yoru_speech.Speech.Repository.{is_delimiter, push_token, split_loop, split_tokens}

-- The text cut at every delimiter, empty pieces included: "a-.b" has "a", "" and "b".
first_longer : ℕ → List Text → List Text
first_longer c [] = (c ∷ []) ∷ []
first_longer c (piece ∷ later) = (c ∷ piece) ∷ later

unfoldable pub pieces : Text → List Text
unfolding first_longer
pieces [] = [] ∷ []
pieces (c ∷ cs) = if is_delimiter c then [] ∷ pieces cs else first_longer c (pieces cs)

unfoldable pub non_empty : List Text → List Text
non_empty [] = []
non_empty ([] ∷ later) = non_empty later
non_empty ((c ∷ cs) ∷ later) = (c ∷ cs) ∷ non_empty later

-- No delimiter in it.
abbrev pub NoDelimiter : Text → Type 0
NoDelimiter [] = Unit
NoDelimiter (c ∷ cs) = (is_delimiter c ≡ false) × NoDelimiter cs

abbrev pub AllTokens : List Text → Type 0
AllTokens [] = Unit
AllTokens (token ∷ tokens) = ((is_empty token ≡ false) × NoDelimiter token) × AllTokens tokens

abbrev AllPieces : List Text → Type 0
AllPieces [] = Unit
AllPieces (piece ∷ later) = NoDelimiter piece × AllPieces later

prepend : Text → List Text → List Text
prepend current [] = current ∷ []
prepend current (piece ∷ later) = (current ++ piece) ∷ later

push_token_lem :
    (tokens : List Text) (current : Text) (later : List Text)
    → push_token tokens current ++ non_empty later ≡ tokens ++ non_empty ((current ++ []) ∷ later)
unfolding push_token non_empty
push_token_lem tokens [] later = refl
push_token_lem tokens (c ∷ cs) later = rw (append-nil, append_assoc) refl

prepend-nil : (ps : List Text) → non_empty (prepend [] ps) ≡ non_empty ps
unfolding prepend non_empty
prepend-nil [] = refl
prepend-nil (piece ∷ later) = refl

prepend-first_longer :
    (current : Text) (c : ℕ) (ps : List Text)
    → prepend (current ++ c ∷ []) ps ≡ prepend current (first_longer c ps)
unfolding prepend first_longer
prepend-first_longer current c [] = refl
prepend-first_longer current c (piece ∷ later) = rw append_assoc refl

split_loop_lem :
    (tokens : List Text) (current text : Text)
    → split_loop tokens current text ≡ tokens ++ non_empty (prepend current (pieces text))
unfolding split_loop pieces prepend non_empty
split_loop_lem tokens current [] =
    sym (append-nil (push_token tokens current)) ∙ push_token_lem tokens current []
split_loop_lem tokens current (c ∷ cs) = elim (Bool-cases (is_delimiter c)) [
  | inl e ↦ rw e (
      split_loop_lem (push_token tokens current) [] cs
      ∙ rw (prepend-nil (pieces cs)) (push_token_lem tokens current (pieces cs)))
  | inr e ↦ rw e (
      split_loop_lem tokens (current ++ c ∷ []) cs
      ∙ ap (λ ps. tokens ++ non_empty ps) (prepend-first_longer current c (pieces cs)))
]

first_longer-AllPieces :
    (c : ℕ) (ps : List Text) → is_delimiter c ≡ false → AllPieces ps → AllPieces (first_longer c ps)
unfolding first_longer
first_longer-AllPieces c [] h all = ((h, tt), tt)
first_longer-AllPieces c (piece ∷ later) h all = ((h, all.0), all.1)

pieces-AllPieces : (text : Text) → AllPieces (pieces text)
unfolding pieces
pieces-AllPieces [] = (tt, tt)
pieces-AllPieces (c ∷ cs) = elim (Bool-cases (is_delimiter c)) [
  | inl e ↦ rw e (tt, pieces-AllPieces cs)
  | inr e ↦ rw e (first_longer-AllPieces c (pieces cs) e (pieces-AllPieces cs))
]

non_empty-AllTokens : (ps : List Text) → AllPieces ps → AllTokens (non_empty ps)
unfolding non_empty
non_empty-AllTokens [] all = tt
non_empty-AllTokens ([] ∷ later) all = non_empty-AllTokens later all.1
non_empty-AllTokens ((c ∷ cs) ∷ later) all = ((refl, all.0), non_empty-AllTokens later all.1)

-- split_tokens yields exactly the pieces between delimiters that are not empty, in order, and none
-- of its tokens is empty or holds a delimiter.
pub split_tokens_lem :
    (text : Text) → (split_tokens text ≡ non_empty (pieces text)) × AllTokens (split_tokens text)
unfolding split_tokens
split_tokens_lem text =
    let e : split_loop [] [] text ≡ non_empty (pieces text) =
      split_loop_lem [] [] text ∙ prepend-nil (pieces text) in
    (e, rw e (non_empty-AllTokens (pieces text) (pieces-AllPieces text)))
