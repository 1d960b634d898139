-- ===== src/Runtime/Glob.antt =====
-- `fnmatch.fnmatch` of Python, on a system where case matters: `*` is any text, slashes included, `?` any
-- character, and `[...]` a class, which `!` negates. A bracket that is not closed stands for itself.
use Prim.Native.Char.{code}
use Prim.Native.String.{◌∷◌ as cons_char}
use async_native_ai_orchestr.Prelude.{
  ℕ, zero, suc, ◌+◌, String, Bool, true, false, not, ◌&&◌, ◌||◌, List, [], ◌∷◌, Option, none, some,
  ◌==◌, leb, ◌≡◌, refl, if◌then◌else◌,
}

abbrev pub codes : String → List ℕ
codes String.[] = []
codes (cons_char c s) = code c ∷ codes s

pub data Item : Type 0 where
  star : Item
  any_char : Item
  literal : ℕ → Item
  -- Ranges, and whether the class is negated.
  class : (negated : Bool) → List (ℕ × ℕ) → Item

-- The text up to the next `]`, if there is one.
abbrev up_to_bracket : List ℕ → Option (List ℕ)
up_to_bracket [] = none
up_to_bracket (c ∷ cs) =
    let rest = up_to_bracket cs in
    if c == b']' then some [] else elim rest [ none ↦ none | some r ↦ some (c ∷ r) ]

-- A `]` that comes first belongs to the class.
abbrev content_of : List ℕ → Option (List ℕ)
content_of [] = none
content_of (c ∷ cs) = elim (up_to_bracket cs) [
  | none ↦ if c == b']' then none else up_to_bracket (c ∷ cs)
  | some r ↦ if c == b']' then some (c ∷ r) else up_to_bracket (c ∷ cs)
]

abbrev ranges : List ℕ → List (ℕ × ℕ)
ranges [] = []
ranges (a ∷ d ∷ b ∷ rest) =
    let range = ranges rest in
    let single = ranges (d ∷ b ∷ rest) in if d == b'-' then (a, b) ∷ range else (a, a) ∷ single
ranges (a ∷ rest) = (a, a) ∷ ranges rest

abbrev count : List ℕ → ℕ
count [] = 0
count (c ∷ cs) = suc (count cs)

-- A class after its `[`, and the number of characters that it takes; or the bracket itself.
abbrev class_of : (negated : Bool) → ℕ → Option (List ℕ) → Item × ℕ
class_of negated n none = (literal b'[', 0)
class_of negated n (some cs) = (class negated (ranges cs), n + count cs + 1)

abbrev bracketed : List ℕ → Item × ℕ
bracketed [] = (literal b'[', 0)
bracketed (c ∷ cs) =
    if c == b'!' then class_of true 1 (content_of cs) else class_of false 0 (content_of (c ∷ cs))

-- The item that starts with `c`, and how many characters of the text behind it belong to it.
abbrev item_at : ℕ → List ℕ → Item × ℕ
item_at c cs =
    if c == b'*'
    then (star, 0)
    else (if c == b'?' then (any_char, 0) else (if c == b'[' then bracketed cs else (literal c, 0)))

-- The items of a pattern, of which the first `skip` characters are used up.
abbrev items : (skip : ℕ) → List ℕ → List Item
items skip [] = []
items (suc skip) (c ∷ cs) = items skip cs
items zero (c ∷ cs) = let (item, used) = item_at c cs in item ∷ items used cs

abbrev in_ranges : ℕ → List (ℕ × ℕ) → Bool
in_ranges c [] = false
in_ranges c ((a, b) ∷ rs) = (leb a c && leb c b) || in_ranges c rs

abbrev accepts : Item → ℕ → Bool
accepts star c = false
accepts any_char c = true
accepts (literal d) c = c == d
accepts (class true rs) c = not (in_ranges c rs)
accepts (class false rs) c = in_ranges c rs

-- The test holds of some end of the text.
abbrev some_end : (List ℕ → Bool) → List ℕ → Bool
some_end p [] = p []
some_end p (c ∷ cs) = p (c ∷ cs) || some_end p cs

abbrev one_then : Item → (List ℕ → Bool) → List ℕ → Bool
one_then item p [] = false
one_then item p (c ∷ cs) = accepts item c && p cs

abbrev matches : List Item → List ℕ → Bool
matches [] [] = true
matches [] (c ∷ cs) = false
matches (star ∷ p) cs = some_end (matches p) cs
matches (any_char ∷ p) cs = one_then any_char (matches p) cs
matches (literal d ∷ p) cs = one_then (literal d) (matches p) cs
matches (class n rs ∷ p) cs = one_then (class n rs) (matches p) cs

unfoldable pub fnmatch : (name pattern_ : String) → Bool
fnmatch name pattern_ = matches (items 0 (codes pattern_)) (codes name)

fnmatch_example :
    (fnmatch "src/a/b.py" "src/*.py" ≡ true)
    × (fnmatch "x-9" "x[]a-]?" ≡ true)
    × (fnmatch "xb" "x[!a-c]" ≡ false)
    × (fnmatch "a[b" "a[b" ≡ true)
unfolding fnmatch
fnmatch_example = (refl, refl, refl, refl)
