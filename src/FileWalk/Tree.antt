-- ===== src/FileWalk/Tree.antt =====
-- The specification of the walk of APUE/filenum.c: trees of files, and the visits of a tree in order.
use temp.Base.{
  ℕ, suc, ◌≤◌, ◌≡◌, true, false, Bool-cases, inl, inr, refl, sym, ap, ◌∙◌, none, some, List, [],
  ◌∷◌, ◌++◌, max, length, ◌==◌,
}
use temp.FileWalk.{
  FilePath, FileSystem, Mode, Visit, file, directory, unreadable, unknown, Myfunc, is_dot, is_dir,
}

-- A file without a status, a file that is no directory, a directory that cannot be read, and a folder
-- with what `readdir` gives: "." and "..", and names with their trees.
mutual
  pub data Node : Type 0 where
    missing locked : Node
    leaf : Mode → Node
    folder : Entries → Node

  pub data Entries : Type 0 where
    end : Entries
    here above : Entries → Entries
    entry : FilePath → Node → Entries → Entries

-- The names that `readdir` gives.
abbrev pub names : Entries → List FilePath
names end = []
names (here es) = (b'.' ∷ []) ∷ names es
names (above es) = (b'.' ∷ b'.' ∷ []) ∷ names es
names (entry name t es) = name ∷ names es

abbrev pub inside : FilePath → FilePath
inside p = p ++ (b'/' ∷ [])

-- The file system has the tree at the path. A name has at most NAME_MAX bytes.
unfoldable mutual
  pub Shows : FileSystem → Node → FilePath → Type 0
  Shows fs missing p = fs.lstat p ≡ none
  Shows fs locked p = (fs.lstat p ≡ some Mode.dir) × (fs.opendir (inside p) ≡ none)
  Shows fs (leaf m) p = (fs.lstat p ≡ some m) × (is_dir m ≡ false)
  Shows fs (folder es) p =
      (fs.lstat p ≡ some Mode.dir) × (fs.opendir (inside p) ≡ some (names es)) × Holds fs es p

  pub Holds : FileSystem → Entries → FilePath → Type 0
  Holds fs end p = Unit
  Holds fs (here es) p = Holds fs es p
  Holds fs (above es) p = Holds fs es p
  Holds fs (entry name t es) p =
      (is_dot name ≡ false) × (length name ≤ 255) × Shows fs t (inside p ++ name) × Holds fs es p

-- The visits in the order of the walk: a directory comes before what it holds.
unfoldable mutual
  pub visits : Node → FilePath → List (FilePath × Visit)
  visits missing p = (p, unknown) ∷ []
  visits locked p = (p, directory) ∷ (inside p, unreadable) ∷ []
  visits (leaf m) p = (p, file m) ∷ []
  visits (folder es) p = (p, directory) ∷ visits_in es p

  pub visits_in : Entries → FilePath → List (FilePath × Visit)
  visits_in end p = []
  visits_in (here es) p = visits_in es p
  visits_in (above es) p = visits_in es p
  visits_in (entry name t es) p = visits t (inside p ++ name) ++ visits_in es p

unfoldable mutual
  pub depth : Node → ℕ
  depth missing = 0
  depth locked = 0
  depth (leaf m) = 0
  depth (folder es) = suc (depth_in es)

  pub depth_in : Entries → ℕ
  depth_in end = 0
  depth_in (here es) = depth_in es
  depth_in (above es) = depth_in es
  depth_in (entry name t es) = max (depth t) (depth_in es)

module _ {S : Type 0} where
  -- To go on after a result 0.
  abbrev pub and_then : ℕ × S → (S → ℕ × S) → ℕ × S
  and_then x f = elim (x.0 == 0) [ true ↦ f x.1 | false ↦ x ]

  -- The calls of `func` for the visits, up to the first that does not return 0.
  unfoldable pub run : Myfunc S → List (FilePath × Visit) → S → ℕ × S
  run func [] s = (0, s)
  run func ((p, v) ∷ rest) s = and_then (func p v s) (run func rest)

  and_then_zero : (x : ℕ × S) (f : S → ℕ × S) → (x.0 == 0) ≡ true → and_then x f ≡ f x.1
  and_then_zero x f y = rw (y, and_then) refl

  and_then_stop : (x : ℕ × S) (f : S → ℕ × S) → (x.0 == 0) ≡ false → and_then x f ≡ x
  and_then_stop x f y = rw (y, and_then) refl

  and_then_step :
      (x : ℕ × S) (f g h : S → ℕ × S)
      → f x.1 ≡ and_then (g x.1) h
      → and_then x f ≡ and_then (and_then x g) h
  and_then_step x f g h e = elim (Bool-cases (x.0 == 0)) [
    | inl y ↦ and_then_zero x f y ∙ e ∙ ap (λ z. and_then z h) (sym (and_then_zero x g y))
    | inr y ↦
        and_then_stop x f y
        ∙ sym (ap (λ z. and_then z h) (and_then_stop x g y) ∙ and_then_stop x h y)
  ]

  pub run-append :
      (func : Myfunc S) (xs ys : List (FilePath × Visit)) (s : S)
      → run func (xs ++ ys) s ≡ and_then (run func xs s) (run func ys)
  unfolding run
  run-append func [] ys s = refl
  run-append func ((p, v) ∷ xs) ys s =
      and_then_step (func p v s) (run func (xs ++ ys)) (run func xs) (run func ys)
        (run-append func xs ys (func p v s).1)
