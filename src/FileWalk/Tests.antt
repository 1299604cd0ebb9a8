-- ===== src/FileWalk/Tests.antt =====
-- The walk of APUE/filenum.c over a small tree.
use temp.Base.{ℕ, ◌+◌, ◌<◌, ◌≡◌, refl, true, ◌||◌, none, some, [], ◌∷◌, arith, if◌then◌else◌}
use temp.Base.History.{same_text}
use temp.FileWalk.{
  FilePath, FileSystem, Mode, Visit, done, Buffer, no_files, myfunc, myftw, dopath, Myfunc, is_dot,
}
use temp.FileWalk.Alloc.{Conf, statics, no_limit, path_alloc, max_path}
use temp.FileWalk.Tree.{
  Node, missing, locked, leaf, folder, end, here, above, entry, Shows, visits, depth, run,
}
use temp.FileWalk.Preorder.{HasMemory, Fits, dopath_lem}
use temp.FileWalk.Count.{after, myftw_counts}

-- The directory r with the regular file f, the FIFO q, a directory x that cannot be read, and a name
-- without a status.
abbrev r : FilePath
r = b'r' ∷ []

abbrev in_r : ℕ → FilePath
in_r c = b'r' ∷ b'/' ∷ c ∷ []

abbrev tree : Node
tree = folder (
    here (
      above (
        entry (b'f' ∷ []) (leaf Mode.reg) (
          entry (b'q' ∷ []) (leaf Mode.fifo)
            (entry (b'x' ∷ []) locked (entry (b'u' ∷ []) missing end))))))

abbrev shelf : FileSystem
shelf = record {
  lstat = λ p.
      if same_text p r || same_text p (in_r b'x')
      then some Mode.dir
      else if same_text p (in_r b'f')
      then some Mode.reg
      else if same_text p (in_r b'q')
      then some Mode.fifo
      else none;
  opendir = λ p.
      if same_text p (b'r' ∷ b'/' ∷ [])
      then some (
          (b'.' ∷ [])
          ∷ (b'.' ∷ b'.' ∷ [])
          ∷ (b'f' ∷ [])
          ∷ (b'q' ∷ [])
          ∷ (b'x' ∷ [])
          ∷ (b'u' ∷ [])
          ∷ [])
      else none;
  realloc = λ n. true;
}

shelf-Shows : Shows shelf tree r
unfolding Shows same_text is_dot
shelf-Shows = (
  refl,
  refl,
  (
    refl,
    omega arith,
    (refl, refl),
    (
      refl,
      omega arith,
      (refl, refl),
      (refl, omega arith, (refl, refl), (refl, omega arith, refl, tt)),
    ),
  ),
)

shallow : depth tree < 2
unfolding depth
shallow = omega arith

shelf-HasMemory : HasMemory shelf
shelf-HasMemory n = refl

-- A visit that is counted, and that ends the walk at the first regular file.
abbrev up_to_file : Myfunc ℕ
up_to_file p (Visit.file Mode.reg) n = (7, n + 1)
up_to_file p v n = (0, n + 1)

dopath_lem_example :
    (b' : Buffer) × (dopath 2 shelf up_to_file (record { fullpath = r; pathlen = 256 }) 0
      ≡ done (run up_to_file (visits tree r) 0).0 b' (run up_to_file (visits tree r) 0).1)
    × Fits r 256 b'
dopath_lem_example =
    dopath_lem shelf up_to_file tree r 2 256 0 shelf-HasMemory shelf-Shows shallow (omega arith)
      (omega arith)

stops_early : run up_to_file (visits tree r) 0 ≡ (7, 2)
unfolding run visits
stops_early = refl

abbrev system : Conf
system = record { version = 200809; xopen_version = 700; path_limit = no_limit; malloc = λ n. true }

size_known :
    path_alloc system statics
    ≡ some (4096, record { pathmax = 4096; posix_version = 200809; xsi_version = 700 })
unfolding path_alloc max_path
size_known = refl

myftw_counts_example :
    (b' : Buffer) × (myftw 2 system statics shelf r myfunc no_files
      ≡ done 0 b' (after no_files tree))
myftw_counts_example =
    myftw_counts 2 system statics shelf r tree no_files size_known (omega arith) shelf-HasMemory
      shelf-Shows shallow
