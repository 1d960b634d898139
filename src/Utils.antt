-- ===== src/Utils.antt =====
-- dev_orchestrator/v8/utils.py: the helpers of the phase handlers. `json.loads` is a parameter, which gives
-- none where it raises.
use Prim.Native.Char.{code}
use Prim.Native.String.{◌∷◌ as cons_char}
use async_native_ai_orchestr.Prelude.{
  ℕ, String, Bool, false, ◌&&◌, ◌||◌, List, [], ◌∷◌, Option, none, some, str_eq, str_append, leb,
  ◌==◌, or_else, any, if◌then◌else◌,
}
use async_native_ai_orchestr.Text.{strip, has_prefix, take_chars, count_chars}
use async_native_ai_orchestr.Errors.Numbers.{decimal}
use async_native_ai_orchestr.Prelude.Dict.{Dict, get}
use async_native_ai_orchestr.Json.{Json, Fields, null, str, obj, end, field, truthy, get_field}

-- A character that ends a line; `\r\n` ends one line.
abbrev is_line_end : ℕ → Bool
is_line_end n =
    (leb 10 n && leb n 13) || ((leb 28 n && leb n 30) || any (◌==◌ n) (133 ∷ 8232 ∷ 8233 ∷ []))

-- The line and the lines after it. `after_return` says that the character before was `\r`.
unfoldable pub lines_from : (after_return : Bool) → String → Option (String × List String)
lines_from after_return String.[] = none
lines_from after_return (cons_char c s) =
    let skipped = lines_from false s in
    let rest = lines_from (code c == 13) s in
    if after_return && (code c == 10)
    then skipped
    else (if is_line_end (code c)
        then some ("", elim rest [ none ↦ [] | some (l, ls) ↦ l ∷ ls ])
        else elim rest [
          | none ↦ some (cons_char c "", [])
          | some (l, ls) ↦ some (cons_char c l, ls)
        ])

-- `s.splitlines()`
unfoldable pub splitlines : String → List String
splitlines s = elim (lines_from false s) [ none ↦ [] | some (l, ls) ↦ l ∷ ls ]

-- `"\n".join(lines)`
abbrev pub join_lines : List String → String
join_lines [] = ""
join_lines (x ∷ []) = x
join_lines (x ∷ y ∷ ls) = str_append x (str_append "\n" (join_lines (y ∷ ls)))

-- `lines[1:] if len(lines) > 1 else lines`
abbrev without_first : List String → List String
without_first [] = []
without_first (x ∷ []) = x ∷ []
without_first (x ∷ y ∷ ls) = y ∷ ls

-- The lines without the last one, if that is a fence.
abbrev without_fence : List String → List String
without_fence [] = []
without_fence (x ∷ []) = if str_eq (strip x) "```" then [] else x ∷ []
without_fence (x ∷ y ∷ ls) = x ∷ without_fence (y ∷ ls)

unfoldable pub unfenced : String → String
unfenced text =
    if has_prefix text "```"
    then strip (join_lines (without_fence (without_first (splitlines text))))
    else text

-- `text[text.find(c):]`, if the character is there.
unfoldable pub from_first : ℕ → String → Option String
from_first n String.[] = none
from_first n (cons_char c s) =
    let rest = from_first n s in if code c == n then some (cons_char c s) else rest

-- `text[:text.rfind(c) + 1]`, if the character is there.
unfoldable pub up_to_last : ℕ → String → Option String
up_to_last n String.[] = none
up_to_last n (cons_char c s) = elim (up_to_last n s) [
  | some rest ↦ some (cons_char c rest)
  | none ↦ if code c == n then some (cons_char c "") else none
]

-- The text from the first `{` to the last `}`.
unfoldable pub braced : String → Option String
braced text = elim (from_first b'{' text) [ none ↦ none | some s ↦ up_to_last b'}' s ]

-- A parsed object, or the raw text under a key.
abbrev pub object_or_raw : Json → Json → Fields
object_or_raw raw (obj fs) = fs
object_or_raw raw _ = field "raw_text" raw end

module _ (loads : String → Option Json) where
  abbrev parse_braced : Json → Option String → Fields
  parse_braced raw none = field "raw_text" raw end
  parse_braced raw (some t) = object_or_raw raw (or_else (loads t) null)

  abbrev parse_text : Json → String → Fields
  parse_text raw text = elim (loads text) [
    | some parsed ↦ object_or_raw raw parsed
    | none ↦ parse_braced raw (braced text)
  ]

  unfoldable pub json_or_empty : Json → Fields
  json_or_empty (obj fs) = fs
  json_or_empty (str raw) =
      if str_eq (strip raw) "" then end else parse_text (str raw) (unfenced (strip raw))
  json_or_empty _ = end

-- `compact_text`
unfoldable pub compact_text : String → ℕ → String
compact_text value limit =
    if leb (count_chars value) limit
    then value
    else str_append (take_chars limit value)
        (str_append "... [truncated from " (str_append (decimal (count_chars value)) " chars]"))

-- `_ALIASES`
abbrev metadata_aliases : Dict String
metadata_aliases =
    ("requirements_analysis", "requirements")
    ∷ ("architecture_design", "architecture")
    ∷ ("package_dag", "package_plan")
    ∷ []

unfoldable pub canonical_metadata_key : String → String
canonical_metadata_key key = or_else (get key metadata_aliases) key

-- `get_metadata_field`
unfoldable pub get_metadata_field : Fields → List String → Json
get_metadata_field metadata [] = null
get_metadata_field metadata (key ∷ keys) =
    let rest = get_metadata_field metadata keys in
    if truthy (get_field key metadata) then get_field key metadata else rest
