-- ===== src/Ipc/Server/Framing.antt =====
-- The lines that poll_once of ipc_server.cpp hands to its callback, against the bytes that a client
-- sent.
pub mod Reading
use yoru_speech.Common.{
  ℕ, zero, suc, ◌==◌, ◌<◌, ◌≤◌, ◌≡◌, refl, ◌∙◌, false, Bool-cases, List, [], ◌∷◌, ◌++◌,
  append_assoc, append-nil, Option, none, some, inl, inr, Text, length, flatten, if◌then◌else◌,
  arith,
}
use yoru_speech.Ipc.Server.{next_line, deliver, receive}

-- A byte in front of the lines and the unfinished rest of a text.
abbrev push : ℕ → List Text × Text → List Text × Text
push c ([], rest) = ([], c ∷ rest)
push c (l ∷ ls, rest) = ((c ∷ l) ∷ ls, rest)

-- The lines of a text that a newline ends, without it, and the rest.
abbrev pub split_lines : Text → List Text × Text
split_lines [] = ([], [])
split_lines (c ∷ cs) =
    let (ls, rest) = split_lines cs in if c == 10 then ([] ∷ ls, rest) else push c (ls, rest)

abbrev before : List Text → List Text × Text → List Text × Text
before ls (ls', rest) = (ls ++ ls', rest)

Split : Text → Option (Text × Text) → Type 0
Split text none = split_lines text ≡ ([], text)
Split text (some (line, rest)) =
    (split_lines text ≡ before (line ∷ []) (split_lines rest)) × (length rest < length text)

next_line_cons :
    (c : ℕ) (cs : Text) (o : Option (Text × Text))
    → (c == 10) ≡ false
    → next_line cs ≡ o
    → Split cs o
    → Split (c ∷ cs) (next_line (c ∷ cs))
unfolding Split next_line
next_line_cons c cs none h e s = rw (e, h) (rw (s, h) refl)
next_line_cons c cs (some (line, rest)) h e (s, t) = rw (e, h) (rw (s, h) refl, omega arith)

next_line_lem : (text : Text) → Split text (next_line text)
next_line_lem [] = unfold Split next_line in refl
next_line_lem (c ∷ cs) = elim (Bool-cases (c == 10)) [
  | inl h ↦ unfold Split next_line in rw h (rw h refl, omega arith)
  | inr h ↦ next_line_cons c cs (next_line cs) h refl (next_line_lem cs)
]

split_push :
    (c : ℕ)
    → (c == 10) ≡ false
    → (ls : List Text) (rest more cs : Text)
    → split_lines (cs ++ more) ≡ before ls (split_lines (rest ++ more))
    → push c (split_lines (cs ++ more))
      ≡ before (push c (ls, rest)).0 (split_lines ((push c (ls, rest)).1 ++ more))
split_push c h [] rest more cs e = rw (e, h) refl
split_push c h (l ∷ ls) rest more cs e = rw e refl

split_append :
    (text more : Text)
    → split_lines (text ++ more)
      ≡ before (split_lines text).0 (split_lines ((split_lines text).1 ++ more))
split_append [] more = refl
split_append (c ∷ cs) more = elim (Bool-cases (c == 10)) [
  | inl h ↦ rw h (rw (split_append cs more) refl)
  | inr h ↦
      rw h (split_push c h (split_lines cs).0 (split_lines cs).1 more cs (split_append cs more))
]

rest_push :
    (c : ℕ)
    → (c == 10) ≡ false
    → (ls : List Text) (rest : Text) → split_lines rest ≡ ([], rest)
    → split_lines (push c (ls, rest)).1 ≡ ([], (push c (ls, rest)).1)
rest_push c h [] rest e = rw (h, e) refl
rest_push c h (l ∷ ls) rest e = e

-- There is no complete line in the rest.
rest_lem : (text : Text) → split_lines (split_lines text).1 ≡ ([], (split_lines text).1)
rest_lem [] = refl
rest_lem (c ∷ cs) = elim (Bool-cases (c == 10)) [
  | inl h ↦ rw h (rest_lem cs)
  | inr h ↦ rw h (rest_push c h (split_lines cs).0 (split_lines cs).1 (rest_lem cs))
]

module _ {Y : Type 0} (on_line : Text → Y → Y) where
  -- The callback on each line in turn.
  abbrev pub each : List Text → Y → Y
  each [] y = y
  each (l ∷ ls) y = each ls (on_line l y)

  each-append : (ls ms : List Text) (y : Y) → each (ls ++ ms) y ≡ each ms (each ls y)
  each-append [] ms y = refl
  each-append (l ∷ ls) ms y = each-append ls ms (on_line l y)

  deliver_from :
      (fuel : ℕ) (buffer : Text) (o : Option (Text × Text)) (y : Y)
      → length buffer ≤ suc fuel
      → next_line buffer ≡ o
      → Split buffer o
      → ((b : Text) (z : Y)
          → length b ≤ fuel
          → deliver on_line fuel b z ≡ ((split_lines b).1, each (split_lines b).0 z))
      → deliver on_line (suc fuel) buffer y
        ≡ ((split_lines buffer).1, each (split_lines buffer).0 y)
  unfolding deliver Split
  deliver_from fuel buffer none y h e s rest = rw (deliver, e, s) refl
  deliver_from fuel buffer (some (line, later)) y h e (s, t) rest =
      rw (deliver, e, s) (rest later (on_line line y) (omega arith))

  deliver_lem :
      (fuel : ℕ) (buffer : Text) (y : Y)
      → length buffer ≤ fuel
      → deliver on_line fuel buffer y ≡ ((split_lines buffer).1, each (split_lines buffer).0 y)
  deliver_lem zero [] y h = unfold deliver in refl
  deliver_lem zero (c ∷ cs) y h = absurd (omega arith)
  deliver_lem (suc fuel) buffer y h =
      deliver_from fuel buffer (next_line buffer) y h refl (next_line_lem buffer)
        (λ b z k. deliver_lem fuel b z k)

  receive_lem :
      (chunk buffer : Text) (y : Y)
      → let split = split_lines (buffer ++ chunk) in
        receive on_line chunk buffer y ≡ (split.1, each split.0 y)
  unfolding receive
  receive_lem chunk buffer y =
      deliver_lem (length (buffer ++ chunk)) (buffer ++ chunk) y (omega arith)

  pub read_lem :
      (chunk so : Text) (y : Y)
      → let split = split_lines (so ++ chunk) in
        receive on_line chunk (split_lines so).1 (each (split_lines so).0 y)
        ≡ (split.1, each split.0 y)
  read_lem chunk so y =
      receive_lem chunk (split_lines so).1 (each (split_lines so).0 y)
      ∙ rw
          (
            split_append so chunk,
            each-append (split_lines so).0 (split_lines ((split_lines so).1 ++ chunk)).0 y,
          )
          refl
