-- ===== src/Text.antt =====
-- The `str` methods of Python that the modelled code calls. Lower-casing is that of the ASCII letters.
use Prim.Native.Char.{Char, code}
use Prim.Native.String.{◌∷◌ as cons_char}
use async_native_ai_orchestr.Prelude.{
  str_append, ℕ, zero, suc, String, Bool, true, false, ◌&&◌, ◌||◌, List, [], ◌∷◌, leb, ◌==◌,
  if◌then◌else◌, any, str_eq, ◌≡◌, refl,
}

-- `s[:n]`
abbrev pub take_chars : ℕ → String → String
take_chars zero s = ""
take_chars (suc n) String.[] = ""
take_chars (suc n) (cons_char c s) = cons_char c (take_chars n s)

-- `len(s)`
abbrev pub count_chars : String → ℕ
count_chars String.[] = 0
count_chars (cons_char c s) = suc (count_chars s)

abbrev lower_letters : List (ℕ × Char)
lower_letters =
    (b'A', "a")
    ∷ (b'B', "b")
    ∷ (b'C', "c")
    ∷ (b'D', "d")
    ∷ (b'E', "e")
    ∷ (b'F', "f")
    ∷ (b'G', "g")
    ∷ (b'H', "h")
    ∷ (b'I', "i")
    ∷ (b'J', "j")
    ∷ (b'K', "k")
    ∷ (b'L', "l")
    ∷ (b'M', "m")
    ∷ (b'N', "n")
    ∷ (b'O', "o")
    ∷ (b'P', "p")
    ∷ (b'Q', "q")
    ∷ (b'R', "r")
    ∷ (b'S', "s")
    ∷ (b'T', "t")
    ∷ (b'U', "u")
    ∷ (b'V', "v")
    ∷ (b'W', "w")
    ∷ (b'X', "x")
    ∷ (b'Y', "y")
    ∷ (b'Z', "z")
    ∷ []

abbrev lower_from : List (ℕ × Char) → Char → Char
lower_from [] c = c
lower_from ((n, l) ∷ ls) c = if code c == n then l else lower_from ls c

-- `s.lower()`
unfoldable pub lower : String → String
lower String.[] = ""
lower (cons_char c s) = cons_char (lower_from lower_letters c) (lower s)

-- `c.isspace()`
abbrev pub is_space : ℕ → Bool
is_space n =
    (leb 9 n && leb n 13)
    || (leb 28 n && leb n 32)
    || (leb 8192 n && leb n 8202)
    || any (◌==◌ n) (133 ∷ 160 ∷ 5760 ∷ 8232 ∷ 8233 ∷ 8239 ∷ 8287 ∷ 12288 ∷ [])

-- `s.lstrip()`
unfoldable pub lstrip : String → String
lstrip String.[] = ""
lstrip (cons_char c s) = let rest = lstrip s in if is_space (code c) then rest else cons_char c s

-- `s.rstrip()`
unfoldable pub rstrip : String → String
rstrip String.[] = ""
rstrip (cons_char c s) =
    let rest = rstrip s in if is_space (code c) && str_eq rest "" then "" else cons_char c rest

-- `s.strip()`
unfoldable pub strip : String → String
unfolding lstrip rstrip
strip s = rstrip (lstrip s)

-- `s.replace(c, t)`, for a character.
unfoldable pub replace_char : ℕ → String → String → String
replace_char n t String.[] = ""
replace_char n t (cons_char c s) =
    let rest = replace_char n t s in if code c == n then str_append t rest else cons_char c rest

unfoldable pub lstrip_char : ℕ → String → String
lstrip_char n String.[] = ""
lstrip_char n (cons_char c s) =
    let rest = lstrip_char n s in if code c == n then rest else cons_char c s

unfoldable pub rstrip_char : ℕ → String → String
rstrip_char n String.[] = ""
rstrip_char n (cons_char c s) =
    let rest = rstrip_char n s in if (code c == n) && str_eq rest "" then "" else cons_char c rest

-- `s.strip(c)`, for a character.
abbrev pub strip_char : ℕ → String → String
strip_char n s = rstrip_char n (lstrip_char n s)

-- `s.startswith(t)`
abbrev pub has_prefix : String → String → Bool
has_prefix s String.[] = true
has_prefix String.[] (cons_char d t) = false
has_prefix (cons_char c s) (cons_char d t) = (code c == code d) && has_prefix s t

-- `t in s`
unfoldable pub contains : String → String → Bool
contains String.[] t = str_eq t ""
contains (cons_char c s) t = has_prefix (cons_char c s) t || contains s t

-- `s.split("/")`: the first part and the others.
unfoldable pub split_slash : String → String × List String
split_slash String.[] = ("", [])
split_slash (cons_char c s) =
    let (head, rest) = split_slash s in
    if code c == b'/' then ("", head ∷ rest) else (cons_char c head, rest)

-- `"/".join(parts)`
abbrev pub join_slash : List String → String
join_slash [] = ""
join_slash (x ∷ []) = x
join_slash (x ∷ (y ∷ ys)) = str_append x (str_append "/" (join_slash (y ∷ ys)))

lower_example : lower " Hello-ÄZ" ≡ " hello-Äz"
unfolding lower
lower_example = refl

strip_example : strip "  a b \n" ≡ "a b"
unfolding strip
strip_example = refl

contains_example : contains "a timeout came" "timeout" ≡ true
unfolding contains
contains_example = refl
