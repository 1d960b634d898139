-- ===== src/Prelude/Dict.antt =====
-- A Python `dict` with text keys: pairs in insertion order. Assigning to a key that is there
-- keeps its place, and a new key goes to the end.
use Prim.Native.String.{String}
use mathlib.Core.Path.{◌≡◌, refl, subst}
use mathlib.Core.Logic.{◌≢◌, inl, inr}
use mathlib.Core.Option.{Option, none, some}
use mathlib.Core.List.{List, [], ◌∷◌}
use native.Mathlib.Omega.{arith}
use text.Mathlib.Text.{◌==◌ as str_eq}
use text.Mathlib.TextEquality.{eq_iff}
use async_native_ai_orchestr.Prelude.Tests.{if◌then◌else◌, if_both, Bool-cases}
use async_native_ai_orchestr.Prelude.Lists.{All}

abbrev pub Dict {ℓ} : Type ℓ → Type ℓ
Dict V = List (String × V)

module _ {ℓ} {V : Type ℓ} where
  -- `d.get(k)`
  unfoldable pub get : String → List (String × V) → Option V
  get k [] = none
  get k ((j, v) ∷ m) = if str_eq j k then some v else get k m

  -- `d[k] = v`
  unfoldable pub put : String → V → List (String × V) → List (String × V)
  put k v [] = (k, v) ∷ []
  put k v ((j, w) ∷ m) = if str_eq j k then (j, v) ∷ m else (j, w) ∷ put k v m

  -- `d.pop(k, None)`
  unfoldable pub pop : String → List (String × V) → List (String × V)
  pop k [] = []
  pop k ((j, w) ∷ m) = if str_eq j k then m else (j, w) ∷ pop k m

  -- `d.values()`
  abbrev pub values : List (String × V) → List V
  values [] = []
  values ((j, w) ∷ m) = w ∷ values m

  pub get-put :
      (k j : String) (v : V) (m : List (String × V))
      → get j (put k v m) ≡ (if str_eq k j then some v else get j m)
  unfolding get put
  get-put k j v [] = refl
  get-put k j v ((i, w) ∷ m) = ground (arith, eq_iff k j, eq_iff i k, eq_iff i j, get-put k j v m)

  pub get-put_self : (k : String) (v : V) (m : List (String × V)) → get k (put k v m) ≡ some v
  get-put_self k v m = ground (arith, eq_iff k k, get-put k k v m)

  pub get-put_ne :
      (k j : String) (v : V) (m : List (String × V)) → k ≢ j → get j (put k v m) ≡ get j m
  get-put_ne k j v m h = ground (arith, eq_iff k j, get-put k j v m)

-- A property of every value.
module _ {ℓ κ} {V : Type ℓ} (P : V → Type κ) where
  pub All-put :
      (k : String) (v : V) (m : List (String × V))
      → P v
      → All (λ e. P e.1) m
      → All (λ e. P e.1) (put k v m)
  unfolding put
  All-put k v [] h hs = (h, tt)
  All-put k v ((i, w) ∷ m) h (hw, hs) =
      if_both (All (λ e. P e.1)) (str_eq i k) (λ _. (h, hs)) (λ _. (hw, All-put k v m h hs))

  pub All-get :
      (k : String) (v : V) (m : List (String × V)) → get k m ≡ some v → All (λ e. P e.1) m → P v
  unfolding get
  All-get k v [] e hs = cc
  All-get k v ((i, w) ∷ m) e (hw, hs) = elim (Bool-cases (str_eq i k)) [
    | inl same ↦ let e' : some w ≡ some v = rw same at e in subst P (cc) hw
    | inr other ↦ All-get k v m (rw other at e) hs
  ]
