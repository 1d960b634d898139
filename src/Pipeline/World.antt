-- ===== src/Pipeline/World.antt =====
-- What a coroutine of the pipeline reads and changes: the store, the clock, and the identifiers that
-- `new_id` hands out. A coroutine may raise, and what it changed before stays.
use async_native_ai_orchestr.Prelude.{ℕ, suc, String}
use async_native_ai_orchestr.Result.{Result, ok, err, Error}
use async_native_ai_orchestr.Store.Memory.{InMemoryStore}

pub record World : Type 0 where
  pub store : InMemoryStore
  pub now : ℕ
  -- The n-th identifier of `uuid4`, and how many were taken.
  pub mint : ℕ → String
  pub minted : ℕ

abbrev pub M : Type 0 → Type 0
M A = World → Result A × World

module _ {A : Type 0} where
  abbrev pub pure : A → M A
  pure a w = (ok a, w)

  abbrev pub raise : Error → M A
  raise e w = (err e, w)

  abbrev pub lift : Result A → M A
  lift r w = (r, w)

  -- A read of the store.
  abbrev pub asks : (InMemoryStore → A) → M A
  asks f w = (ok (f w.store), w)

  -- A method of the store that returns a value and changes the store.
  abbrev pub on_store : (ℕ → InMemoryStore → A × InMemoryStore) → M A
  on_store f w = let (a, s) = f w.now w.store in (ok a, record w { store = s })

  -- One that may raise.
  abbrev pub try_store : (ℕ → InMemoryStore → Result A × InMemoryStore) → M A
  try_store f w = let (r, s) = f w.now w.store in (r, record w { store = s })

abbrev pub modify : (InMemoryStore → InMemoryStore) → M (Unit {0})
modify f w = (ok tt, record w { store = f w.store })

abbrev pub new_id : M String
new_id w = (ok (w.mint w.minted), record w { minted = suc w.minted })

-- `try: m` / `except Exception: pass`
abbrev pub swallow : {A : Type 0} → M A → M (Unit {0})
swallow m w = (ok tt, (m w).1)

module _ {A B : Type 0} where
  abbrev pub and_then : Result A × World → (A → M B) → Result B × World
  and_then (ok a, w) f = f a w
  and_then (err e, w) f = (err e, w)

  infixl 5 ◌>>=◌ ◌>>◌
  abbrev pub ◌>>=◌ : M A → (A → M B) → M B
  m >>= f = λ w. and_then (m w) f

  abbrev pub ◌>>◌ : M A → M B → M B
  m >> n = m >>= λ _. n

-- The clock of the defaults `created_at` and `updated_at`.
abbrev pub time : M ℕ
time w = (ok w.now, w)
