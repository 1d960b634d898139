-- ===== src/Scheduler/Payload.antt =====
-- dev_orchestrator/v8/scheduler.py: the size of a payload and its truncation.
use async_native_ai_orchestr.Prelude.{
  ℕ, zero, suc, ◌+◌, ◌-◌, ◌*◌, ◌/◌, max, String, ◌≡◌, ◌⊎◌, refl, sym, subst, ==_iff, true, false,
  List, [], ◌∷◌, ◌++◌, arith, ltb, leb, ◌==◌, str_eq, str_append, if◌then◌else◌, Bool-cases, inl,
  inr,
}
use async_native_ai_orchestr.Json.{
  Json, null, bool, num, str, arr, obj, Items, nil, cons, Fields, end, field,
}
use async_native_ai_orchestr.Text.{take_chars, count_chars}
use async_native_ai_orchestr.Errors.Numbers.{decimal}

module _ (show : Json → String) where
  unfoldable mutual
    -- `_estimate_chars`
    pub estimate_chars : Json → ℕ
    estimate_chars (str s) = count_chars s
    estimate_chars (obj fs) = estimate_fields fs
    estimate_chars (arr xs) = estimate_items xs
    estimate_chars null = count_chars (show null)
    estimate_chars (bool b) = count_chars (show (bool b))
    estimate_chars (num n) = count_chars (show (num n))

    pub estimate_fields : Fields → ℕ
    estimate_fields end = 0
    estimate_fields (field k v fs) = count_chars k + 4 + estimate_chars v + estimate_fields fs

    pub estimate_items : Items → ℕ
    estimate_items nil = 0
    estimate_items (cons x xs) = estimate_chars x + estimate_items xs

-- A key of an object or an index of a list.
pub data PathStep : Type 0 where
  key : String → PathStep
  index : ℕ → PathStep

unfoldable pub reverse_onto : List PathStep → List PathStep → List PathStep
reverse_onto [] ys = ys
reverse_onto (x ∷ xs) ys = reverse_onto xs (x ∷ ys)

unfoldable mutual
  -- `_walk`: the texts of more than 200 characters, each by its path and its length. The path so far
  -- comes in reverse.
  pub walk : List PathStep → Json → List (List PathStep × ℕ)
  walk path (obj fs) = walk_fields path fs
  walk path (arr xs) = walk_items path 0 xs
  walk path (str s) =
      if ltb 200 (count_chars s) then (reverse_onto path [], count_chars s) ∷ [] else []
  walk path null = []
  walk path (bool b) = []
  walk path (num n) = []

  pub walk_fields : List PathStep → Fields → List (List PathStep × ℕ)
  walk_fields path end = []
  walk_fields path (field k v fs) = walk (key k ∷ path) v ++ walk_fields path fs

  pub walk_items : List PathStep → ℕ → Items → List (List PathStep × ℕ)
  walk_items path n nil = []
  walk_items path n (cons x xs) = walk (index n ∷ path) x ++ walk_items path (n + 1) xs

-- `paths.sort(key=lambda x: x[1], reverse=True)`, which keeps equal lengths in their order.
unfoldable pub insert_path : List PathStep × ℕ → List (List PathStep × ℕ) → List (List PathStep × ℕ)
insert_path p [] = p ∷ []
insert_path p (q ∷ ps) = if leb q.1 p.1 then p ∷ q ∷ ps else q ∷ insert_path p ps

unfoldable pub sort_paths : List (List PathStep × ℕ) → List (List PathStep × ℕ)
sort_paths [] = []
sort_paths (p ∷ ps) = insert_path p (sort_paths ps)

-- The text at the leaf, replaced. A leaf that is no text is not among the paths.
abbrev pub change_leaf : (String → String) → Json → Json
change_leaf f (str s) = str (f s)
change_leaf f v = v

unfoldable mutual
  pub change_at : (String → String) → List PathStep → Json → Json
  change_at f [] v = change_leaf f v
  change_at f (key k ∷ path) (obj fs) = obj (change_field f k path fs)
  change_at f (index n ∷ path) (arr xs) = arr (change_item f n path xs)
  change_at f (p ∷ path) v = v

  pub change_field : (String → String) → String → List PathStep → Fields → Fields
  change_field f k path end = end
  change_field f k path (field j v fs) =
      let changed = change_at f path v in
      let rest = change_field f k path fs in
      if str_eq j k then field j changed fs else field j v rest

  pub change_item : (String → String) → ℕ → List PathStep → Items → Items
  change_item f n path nil = nil
  change_item f zero path (cons x xs) = cons (change_at f path x) xs
  change_item f (suc n) path (cons x xs) = cons x (change_item f n path xs)

-- `max(500, length - int(budget_over * 1.2))`
abbrev pub keep_chars : (over length : ℕ) → ℕ
keep_chars over length = max 500 (length - over * 12 / 10)

abbrev pub shortened : (kept length : ℕ) → String → String
shortened kept length original =
    str_append (take_chars kept original)
      (str_append "\n... [truncated from " (str_append (decimal length) " chars]"))

-- The loop over the paths: what is left of `budget_over`, which counts as 0 below 0, and the payload.
unfoldable pub cut_strings : ℕ → List (List PathStep × ℕ) → Json → ℕ × Json
cut_strings over [] node = (over, node)
cut_strings over ((path, length) ∷ paths) node =
    let kept = keep_chars over length in
    let cut =
      cut_strings (over - (length - kept)) paths (change_at (shortened kept length) path node) in
    let uncut = cut_strings over paths node in
    if over == 0 then (over, node) else (if ltb kept length then cut else uncut)

-- `_truncate_payload`
unfoldable pub truncate_payload : (stable_json : Json → String) → Json → (max_chars : ℕ) → Json
truncate_payload stable_json payload max_chars =
    let size = count_chars (stable_json payload) in
    let (left, result) = cut_strings (size - max_chars) (sort_paths (walk [] payload)) payload in
    if leb size max_chars then payload else result

-- What can be taken off texts that keep 500 characters.
abbrev pub removable : List (List PathStep × ℕ) → ℕ
removable [] = 0
removable ((path, length) ∷ paths) = (length - 500) + removable paths

cut_strings-zero :
    (paths : List (List PathStep × ℕ)) (node : Json) → (cut_strings 0 paths node).0 ≡ 0
unfolding cut_strings
cut_strings-zero [] node = refl
cut_strings-zero ((path, length) ∷ paths) node = refl

-- One round that cuts: it takes off enough, or all but 500 characters.
cut_case :
    (over length rest left : ℕ)
    → ltb (keep_chars over length) length ≡ true
    → (left ≡ 0) ⊎ (left + rest ≡ over - (length - keep_chars over length))
    → (over - (length - keep_chars over length) ≡ 0 → left ≡ 0)
    → (left ≡ 0) ⊎ (left + ((length - 500) + rest) ≡ over)
cut_case over length rest left short h done = ground arith

uncut_case :
    (over length rest left : ℕ)
    → ltb (keep_chars over length) length ≡ false
    → (left ≡ 0) ⊎ (left + rest ≡ over)
    → (left ≡ 0) ⊎ (left + ((length - 500) + rest) ≡ over)
uncut_case over length rest left long h = ground arith

-- The loop of `_truncate_payload` takes off all that is too much, by its own count, or it cuts every
-- text of the list that has more than 500 characters down to 500.
pub cut_strings-removable :
    (over : ℕ) (paths : List (List PathStep × ℕ)) (node : Json)
    → ((cut_strings over paths node).0 ≡ 0)
      ⊎ ((cut_strings over paths node).0 + removable paths ≡ over)
unfolding cut_strings
cut_strings-removable over [] node = inr (omega arith)
cut_strings-removable over ((path, length) ∷ paths) node =
    let kept = keep_chars over length in
    let node' = change_at (shortened kept length) path node in
    let rest = cut_strings-removable (over - (length - kept)) paths node' in
    let skipped = cut_strings-removable over paths node in
    let stopped = cut_strings-zero paths node' in
    elim (Bool-cases (over == 0)) [
      | inl e ↦ rw e (inl ((==_iff over 0).0 e))
      | inr n ↦ rw n (elim (Bool-cases (ltb kept length)) [
        | inl short ↦ rw short (
            cut_case over length (removable paths) _ short rest
              (λ e. subst (λ o. (cut_strings o paths node').0 ≡ 0) (sym e) stopped))
        | inr long ↦ rw long (uncut_case over length (removable paths) _ long skipped)
      ])
    ]
