-- ===== src/Runtime/Tree.antt =====
-- A disk without links as a function of paths, which has the laws that dev_orchestrator/v8/runtime.py needs.
use async_native_ai_orchestr.Prelude.{
  ◌≡◌, ◌≢◌, ◌⊎◌, inl, inr, refl, arith, String, Bool, true, false, not, ◌&&◌, ◌||◌, [], ◌∷◌, Option,
  none, some, str_eq, eq_iff, is_some, Bool-cases, if◌then◌else◌,
}
use async_native_ai_orchestr.Runtime.{FilePath, Node, file, directory, FileSystem, holds_file}
use async_native_ai_orchestr.Runtime.Paths.{is_under, parent}
use async_native_ai_orchestr.Runtime.Laws.{FileLaws}

abbrev pub Disk : Type 0
Disk = FilePath → Option Node

unfoldable pub path_eq : FilePath → FilePath → Bool
path_eq [] [] = true
path_eq [] (y ∷ q) = false
path_eq (x ∷ p) [] = false
path_eq (x ∷ p) (y ∷ q) = str_eq x y && path_eq p q

path_eq-eq : (p q : FilePath) → path_eq p q ≡ true → p ≡ q
unfolding path_eq
path_eq-eq [] [] h = refl
path_eq-eq [] (y ∷ q) h = cc
path_eq-eq (x ∷ p) [] h = cc
path_eq-eq (x ∷ p) (y ∷ q) h = ground (arith, eq_iff x y, path_eq-eq p q)

path_eq_self : (p : FilePath) → path_eq p p ≡ true
unfolding path_eq
path_eq_self [] = refl
path_eq_self (x ∷ p) = ground (arith, eq_iff x x, path_eq_self p)

unfoldable pub set_node : FilePath → Option Node → Disk → Disk
set_node p n s q = if path_eq q p then n else s q

abbrev is_directory : Option Node → Bool
is_directory (some directory) = true
is_directory (some (file content)) = false
is_directory none = false

-- The path or one above it is a file.
unfoldable pub meets_file : FilePath → Disk → Bool
meets_file [] s = holds_file (s [])
meets_file (x ∷ p) s = holds_file (s []) || meets_file p (λ q. s (x ∷ q))

unfoldable pub remove : FilePath → Disk → Option String × Disk
remove p s = if holds_file (s p) then (none, set_node p none s) else (some "Not a file", s)

unfoldable pub write : FilePath → String → Disk → Option String × Disk
write p text s =
    if is_directory (s p)
    then (some "Is a directory", s)
    else (if is_directory (s (parent p))
        then (none, set_node p (some (file text)) s)
        else (some "No such file or directory", s))

abbrev with_directories : FilePath → Disk → Disk
with_directories p s q = if not (is_some (s q)) && is_under q p then some directory else s q

unfoldable pub make : FilePath → Disk → Option String × Disk
make p s = if meets_file p s then (some "Not a directory", s) else (none, with_directories p s)

abbrev pub disk : FileSystem Disk
disk = record {
  look = λ s p. s p;
  resolve = λ s p. p;
  unlink = remove;
  write_text = write;
  mkdir = make;
}

set_node_ne : (p q : FilePath) (n : Option Node) (s : Disk) → q ≢ p → set_node p n s q ≡ s q
unfolding set_node
set_node_ne p q n s h = ground (arith, path_eq-eq q p)

set_node_self : (p : FilePath) (n : Option Node) (s : Disk) → set_node p n s p ≡ n
unfolding set_node
set_node_self p n s = rw (path_eq_self p)

remove_ne : (p q : FilePath) (s : Disk) → q ≢ p → (remove p s).1 q ≡ s q
unfolding remove
remove_ne p q s h = elim (Bool-cases (holds_file (s p))) [
  | inl e ↦ rw e (set_node_ne p q none s h)
  | inr e ↦ rw e
]

remove_self : (p : FilePath) (s : Disk) → (remove p s).0 ≡ none → (remove p s).1 p ≡ none
unfolding remove
remove_self p s h = elim (Bool-cases (holds_file (s p))) [
  | inl e ↦ rw e (set_node_self p none s)
  | inr e ↦ absurd (let h' : some "Not a file" ≡ none = rw e at h in cc)
]

write_ne : (p q : FilePath) (text : String) (s : Disk) → q ≢ p → (write p text s).1 q ≡ s q
unfolding write
write_ne p q text s h = elim (Bool-cases (is_directory (s p))) [
  | inl e ↦ rw e
  | inr e ↦ elim (Bool-cases (is_directory (s (parent p)))) [
    | inl f ↦ rw (e, f) (set_node_ne p q (some (file text)) s h)
    | inr f ↦ rw (e, f)
  ]
]

write_self :
    (p : FilePath) (text : String) (s : Disk)
    → (write p text s).0 ≡ none
    → (write p text s).1 p ≡ some (file text)
unfolding write
write_self p text s h = elim (Bool-cases (is_directory (s p))) [
  | inl e ↦ absurd (let h' : some "Is a directory" ≡ none = rw e at h in cc)
  | inr e ↦ elim (Bool-cases (is_directory (s (parent p)))) [
    | inl f ↦ rw (e, f) (set_node_self p (some (file text)) s)
    | inr f ↦ absurd (let h' : some "No such file or directory" ≡ none = rw (e, f) at h in cc)
  ]
]

with_directories_same :
    (p q : FilePath) (s : Disk)
    → (is_some (s q) ≡ true) ⊎ (is_under q p ≡ false)
    → with_directories p s q ≡ s q
with_directories_same p q s (inl h) = rw h
with_directories_same p q s (inr h) = ground (arith)

make_same :
    (p q : FilePath) (s : Disk)
    → (is_some (s q) ≡ true) ⊎ (is_under q p ≡ false)
    → (make p s).1 q ≡ s q
unfolding make
make_same p q s h = elim (Bool-cases (meets_file p s)) [
  | inl e ↦ rw e
  | inr e ↦ rw e (with_directories_same p q s h)
]

-- The disk without links has the laws.
pub disk_laws : FileLaws disk
disk_laws = record {
  look-unlink = remove_ne;
  look-write_text = write_ne;
  look-mkdir = make_same;
  look-unlink_self = remove_self;
  look-write_text_self = write_self;
}
