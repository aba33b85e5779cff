-- ===== src/Speech/Paths.antt =====
-- What the program uses of std::filesystem::path, on the text of a POSIX path, and of std::tolower.
pub mod Extensions
use yoru_speech.Common.{
  ℕ, zero, suc, ◌+◌, leb, ◌==◌, Bool, true, false, ◌&&◌, Option, none, some, List, [], ◌∷◌, ◌++◌,
  map, Text, lit, text_eq, take, drop, if◌then◌else◌,
}

-- The index of the last full stop.
unfoldable pub last_dot : Text → Option ℕ
last_dot [] = none
last_dot (c ∷ cs) = elim (last_dot cs) [
  | some i ↦ some (suc i)
  | none ↦ if c == 46 then some 0 else none
]

stem_at : Text → Option ℕ → Text
stem_at name none = name
stem_at name (some zero) = name
stem_at name (some (suc i)) = take (suc i) name

extension_at : Text → Option ℕ → Text
extension_at name none = []
extension_at name (some zero) = []
extension_at name (some (suc i)) = drop (suc i) name

-- path::stem and path::extension of a path that is one file name. A full stop in front starts no
-- extension, and the name ".." has none.
unfoldable pub stem : Text → Text
unfolding stem_at
stem name = if text_eq name (46 ∷ 46 ∷ []) then name else stem_at name (last_dot name)

unfoldable pub extension : Text → Text
unfolding extension_at
extension name = if text_eq name (46 ∷ 46 ∷ []) then [] else extension_at name (last_dot name)

ends_with_slash : Text → Bool
ends_with_slash [] = false
ends_with_slash (c ∷ []) = c == 47
ends_with_slash (c ∷ d ∷ cs) = ends_with_slash (d ∷ cs)

-- path::operator/ for a right side that is not empty.
unfoldable pub join_path : Text → Text → Text
unfolding ends_with_slash
join_path [] name = name
join_path (c ∷ cs) [] = c ∷ cs
join_path (c ∷ cs) (d ∷ ds) =
    if d == 47
    then d ∷ ds
    else (if ends_with_slash (c ∷ cs) then (c ∷ cs) ++ d ∷ ds else (c ∷ cs) ++ 47 ∷ d ∷ ds)

-- std::tolower in the "C" locale.
unfoldable pub lower_char : ℕ → ℕ
lower_char c = if leb 65 c && leb c 90 then c + 32 else c

unfoldable pub to_lower : Text → Text
to_lower text = map lower_char text
