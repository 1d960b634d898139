-- ===== src/Errors/Numbers.antt =====
-- `str(n)` and `int(s)` of Python, for dev_orchestrator/v8/resilience.py: texts are ASCII.
use Prim.Native.Nat.{◌/◌, ◌%◌}
use Prim.Native.Char.{code}
use Prim.Native.String.{char_at, ◌∷◌ as cons_char}
use async_native_ai_orchestr.Prelude.{
  ℕ, zero, suc, ◌+◌, ◌-◌, ◌*◌, String, Bool, true, false, ◌≡◌, refl, ◌&&◌, Option, none, some, ltb,
  leb, ◌==◌, str_append, if◌then◌else◌,
}
use async_native_ai_orchestr.Text.{strip}

-- With as many rounds as the number has digits; `suc n` rounds are enough.
unfoldable pub decimal_in : ℕ → ℕ → String
decimal_in zero n = ""
decimal_in (suc k) n =
    let rest = decimal_in k (n / 10) in
    let last = cons_char (char_at "0123456789" (n % 10)) "" in
    if ltb n 10 then last else str_append rest last

unfoldable pub decimal : ℕ → String
unfolding decimal_in
decimal n = decimal_in (suc n) n

abbrev pub is_digit : ℕ → Bool
is_digit c = leb b'0' c && leb c b'9'

-- The digits that follow, where a `_` may stand between two of them.
unfoldable pub digits_from : ℕ → Bool → String → Option ℕ
digits_from n after_digit String.[] = if after_digit then some n else none
digits_from n after_digit (cons_char c s) =
    let more = digits_from (n * 10 + (code c - b'0')) true s in
    let next = digits_from n false s in
    if is_digit (code c) then more else (if (code c == b'_') && after_digit then next else none)

-- An integer as its sign, which is true for a minus, and its magnitude.
abbrev pub signed : Bool → Option ℕ → Option (Bool × ℕ)
signed negative none = none
signed negative (some n) = some (negative, n)

abbrev pub int_stripped : String → Option (Bool × ℕ)
int_stripped String.[] = none
int_stripped (cons_char c s) =
    if code c == b'-'
    then signed true (digits_from 0 false s)
    else (if code c == b'+'
        then signed false (digits_from 0 false s)
        else signed false (digits_from 0 false (cons_char c s)))

-- `int(s)`, or none for its `ValueError`.
unfoldable pub int : String → Option (Bool × ℕ)
unfolding digits_from
int s = int_stripped (strip s)

printed : decimal 429 ≡ "429"
unfolding decimal
printed = refl

read : int " -1_2 " ≡ some (true, 12)
unfolding int strip
read = refl
