-- ===== src/LlmClient/Content.antt =====
-- dev_orchestrator/llm_client.py: the text of an answer. A value that has no such member as the code asks for
-- raises, which is told apart from an `LLMError`.
use async_native_ai_orchestr.Prelude.{
  String, Bool, true, false, [], ◌∷◌, Option, none, some, str_eq, str_append, if◌then◌else◌, ◌==◌,
}
use async_native_ai_orchestr.Text.{strip, take_chars}
use async_native_ai_orchestr.Json.{
  Json, Fields, Items, bool, num, str, arr, obj, nil, cons, end, get_field, is_str, truthy, or_json,
  object,
}

pub data Extraction : Type 0 where
  found : String → Extraction
  -- An `LLMError`.
  refused : String → Extraction
  -- Another exception.
  broken : Extraction

abbrev or_text : Option String → Option String → Option String
or_text none b = b
or_text (some s) b = some s

abbrev text_at : String → Fields → Option String
text_at k fs = elim (get_field k fs) [ str s ↦ some s | _ ↦ none ]

abbrev nested_value : Fields → Option String
nested_value fs =
    let inner : Option String = elim (get_field "text" fs) [
      | obj t ↦ text_at "value" t
      | _ ↦ none
    ] in
    if is_str "text" (get_field "type" fs) then inner else none

abbrev or_blank : Option String → String
or_blank none = ""
or_blank (some s) = s

-- `_stringify_content_item`
unfoldable pub stringify_content_item : Json → String
stringify_content_item (str s) = s
stringify_content_item (obj fs) = or_blank (
    or_text (text_at "text" fs)
      (or_text (text_at "content" fs) (or_text (text_at "output_text" fs) (nested_value fs))))
stringify_content_item _ = ""

-- `"".join(_stringify_content_item(item) for item in items)`
unfoldable pub join_items : Items → String
join_items nil = ""
join_items (cons x xs) = str_append (stringify_content_item x) (join_items xs)

abbrev pub unless_blank : String → Option String
unless_blank s = if str_eq s "" then none else some s

-- What one of the two fallback keys gives.
abbrev pub fallback_at : String → Fields → Option String
fallback_at k fs = elim (get_field k fs) [
  | str s ↦ unless_blank (strip s)
  | arr xs ↦ unless_blank (strip (join_items xs))
  | _ ↦ none
]

abbrev tool_answer : Json → Fields
tool_answer calls = object (
    ("done", bool false)
    ∷ ("summary", str "")
    ∷ ("artifacts", arr nil)
    ∷ ("tool_calls", calls)
    ∷ [])

abbrev pub no_text : String
no_text = "Responses API payload did not contain usable text output."

abbrev pub no_choices : String
no_choices = "No choices returned from model endpoint."

-- `json.dumps` with `ensure_ascii` as given
module _ (dumps : Bool → Json → String) where
  abbrev tool_text : Json → String
  tool_text calls = if truthy calls then dumps false (obj (tool_answer calls)) else ""

  -- `_extract_message_content`
  unfoldable pub extract_message_content : Fields → String
  extract_message_content message =
      let rest : String =
        elim (or_text (fallback_at "text" message) (fallback_at "output_text" message)) [
          | some s ↦ s
          | none ↦ tool_text (get_field "tool_calls" message)
        ] in
      elim (get_field "content" message) [
        | str s ↦ strip s
        | arr xs ↦ strip (join_items xs)
        | _ ↦ rest
      ]

  abbrev pub preview : Fields → String
  preview payload = take_chars 800 (dumps true (obj payload))

  -- The text, unless it is empty.
  abbrev pub usable : (problem : String) → Fields → String → Extraction
  usable problem payload s =
      if str_eq s ""
      then refused (str_append problem (str_append " Response preview: " (preview payload)))
      else found s

  abbrev pub text_of_message : Fields → Json → Extraction
  text_of_message payload (obj message) =
      usable "Model response did not contain usable message content." payload
        (extract_message_content message)
  text_of_message payload _ = broken

  abbrev pub message_text : Fields → Json → Extraction
  message_text payload (obj choice) =
      text_of_message payload (or_json (get_field "message" choice) (obj end))
  message_text payload _ = broken

  abbrev pub first_choice : Fields → Json → Extraction
  first_choice payload (arr (cons choice rest)) = message_text payload choice
  first_choice payload _ = broken

  -- `_extract_chat_completions_content`, for an answer of any type
  unfoldable pub extract_chat_completions_content : Json → Extraction
  extract_chat_completions_content (obj payload) =
      let choices = get_field "choices" payload in
      let chosen = first_choice payload choices in
      if truthy choices then chosen else usable no_choices payload ""
  extract_chat_completions_content _ = broken

  abbrev output_item : Json → String
  output_item (obj fs) = elim (get_field "content" fs) [ arr xs ↦ join_items xs | _ ↦ "" ]
  output_item _ = ""

  unfoldable pub join_outputs : Items → String
  join_outputs nil = ""
  join_outputs (cons x xs) = str_append (output_item x) (join_outputs xs)

  -- The loop over the outputs: the keys or characters of another value are no objects and add nothing.
  abbrev pub combined : Fields → Json → Extraction
  combined payload (arr xs) = usable no_text payload (strip (join_outputs xs))
  combined payload (num n) = if n == 0 then usable no_text payload "" else broken
  combined payload (bool true) = broken
  combined payload _ = usable no_text payload ""

  -- The member `output_text` is `given`.
  abbrev pub direct_or : Fields → (given : Json) → Extraction
  direct_or payload (str t) =
      if str_eq (strip t) "" then combined payload (get_field "output" payload) else found (strip t)
  direct_or payload _ = combined payload (get_field "output" payload)

  -- `_extract_responses_content`, for an answer of any type
  unfoldable pub extract_responses_content : Json → Extraction
  extract_responses_content (obj payload) = direct_or payload (get_field "output_text" payload)
  extract_responses_content _ = broken
