-- ===== src/FileWalk.antt =====
-- APUE/filenum.c and APUE/alloc.c: a walk over a tree of files with one path buffer, and the counting of
-- files by their kind. The file system is no code of the repository: it is a parameter that answers
-- `lstat`, `opendir` and `readdir` for a path. A path is the text of a C string, without its NUL.
pub mod Alloc
pub mod Tree
pub mod Preorder
pub mod Count
mod Tests
use temp.Base.{
  ℕ, zero, suc, ◌+◌, ◌-◌, ◌*◌, Bool, true, false, ◌&&◌, ◌||◌, Option, none, some, List, [], ◌∷◌,
  ◌++◌, ltb, leb, get_or, ◌==◌, if◌then◌else◌, length, take,
}
use temp.Base.History.{same_text}
use temp.FileWalk.Alloc.{Conf, Statics, statics, path_alloc}

abbrev pub FilePath : Type 0
FilePath = List ℕ

-- `st_mode & S_IFMT`
pub data Mode : Type 0 where
  dir reg blk chr fifo lnk sock other : Mode

-- S_ISDIR
abbrev pub is_dir : Mode → Bool
is_dir Mode.dir = true
is_dir _ = false

-- What `lstat` says of a path, the names that `readdir` gives for a directory that `opendir` opens, and
-- whether `realloc` to a size succeeds.
pub record FileSystem : Type 0 where
  pub lstat : FilePath → Option Mode
  pub opendir : FilePath → Option (List FilePath)
  pub realloc : ℕ → Bool

-- The type of a visit: FTW_F with the mode of the file, FTW_D, FTW_DNR and FTW_NS. The status buffer
-- is read for FTW_F only.
pub data Visit : Type 0 where
  file : Mode → Visit
  directory unreadable unknown : Visit

-- `fullpath` and `pathlen`
pub record Buffer : Type 0 where
  pub fullpath : FilePath
  pub pathlen : ℕ

-- A walk returns; or `err_sys` ends the process; or it writes behind the buffer; or its fuel is over.
pub data Walk (S : Type 0) : Type 0 where
  done : ℕ → Buffer → S → Walk S
  exited overrun unfinished : Walk S

abbrev pub Myfunc : Type 0 → Type 0
Myfunc S = FilePath → Visit → S → ℕ × S

-- NAME_MAX
abbrev pub name_max : ℕ
name_max = 255

-- `strcmp` with "." and "..".
pub is_dot : FilePath → Bool
is_dot name = same_text name (b'.' ∷ []) || same_text name (b'.' ∷ b'.' ∷ [])

-- The text that stands in the buffer after `strcpy(&fullpath[n], name)`, or `none` if it does not fit.
pub put : Buffer → ℕ → FilePath → Option Buffer
put b n name =
    if ltb (n + length name) b.pathlen
    then some (record b { fullpath = take n b.fullpath ++ name })
    else none

-- `fullpath[n - 1] = 0`
pub cut : Buffer → ℕ → Buffer
cut b n = record b { fullpath = take (n - 1) b.fullpath }

-- Room for one more name behind a path of `n` bytes: `none` if `realloc` fails.
pub grow : FileSystem → Buffer → ℕ → Option Buffer
grow fs b n =
    if ltb b.pathlen (n + name_max + 2)
    then (if fs.realloc (b.pathlen * 2) then some (record b { pathlen = b.pathlen * 2 }) else none)
    else some b

module _ {S : Type 0} where
  -- The result of a visit as that of a walk.
  pub visit : Myfunc S → Visit → Buffer → S → Walk S
  visit func v b s = let (r, s') = func b.fullpath v s in done r b s'

  -- `while ((dirp = readdir(dp)) != NULL)` and the end of `dopath`; `go` is `dopath`, and `ret` its
  -- result for the last entry.
  pub entries : (Buffer → S → Walk S) → ℕ → List FilePath → ℕ → Buffer → S → Walk S
  entries go n [] ret b s = done ret (cut b n) s
  entries go n (name ∷ names) ret b s =
      let skip = entries go n names ret b s in
      let enter : Walk S = elim (put b n name) [
        | none ↦ overrun
        | some b₁ ↦ elim (go b₁ s) [
          | done r b₂ s₂ ↦ elim (r == 0) [
            | true ↦ entries go n names r b₂ s₂
            | false ↦ done r (cut b₂ n) s₂
          ]
          | exited ↦ exited
          | overrun ↦ overrun
          | unfinished ↦ unfinished
        ]
      ] in
      if is_dot name then skip else enter

  -- `dopath` of a directory behind its first visit.
  pub enter_dir : FileSystem → Myfunc S → (Buffer → S → Walk S) → Buffer → S → Walk S
  enter_dir fs func go b s =
      let n = length b.fullpath in
      elim (grow fs b n) [
        | none ↦ exited
        | some b₁ ↦ elim (put b₁ n (b'/' ∷ [])) [
          | none ↦ overrun
          | some b₂ ↦ elim (fs.opendir b₂.fullpath) [
            | none ↦ visit func unreadable b₂ s
            | some names ↦ entries go (n + 1) names 0 b₂ s
          ]
        ]
      ]

  -- `dopath`, for trees less deep than the fuel.
  pub dopath : ℕ → FileSystem → Myfunc S → Buffer → S → Walk S
  dopath zero fs func b s = unfinished
  dopath (suc k) fs func b s =
      let directory_first : Walk S = elim (visit func directory b s) [
        | done r b₁ s₁ ↦ elim (r == 0) [
          | true ↦ enter_dir fs func (dopath k fs func) b₁ s₁
          | false ↦ done r b₁ s₁
        ]
        | exited ↦ exited
        | overrun ↦ overrun
        | unfinished ↦ unfinished
      ] in
      elim (fs.lstat b.fullpath) [
        | none ↦ visit func unknown b s
        | some m ↦ if is_dir m then directory_first else visit func (file m) b s
      ]

-- The counters of `main`.
pub record Counters : Type 0 where
  pub nreg : ℕ
  pub ndir : ℕ
  pub nblk : ℕ
  pub nchr : ℕ
  pub nfifo : ℕ
  pub nslink : ℕ
  pub nsock : ℕ

abbrev pub no_files : Counters
no_files = record { nreg = 0; ndir = 0; nblk = 0; nchr = 0; nfifo = 0; nslink = 0; nsock = 0 }

-- `myfunc`. `dopath` calls it with FTW_F for files that are no directories, so that the call of
-- `err_dump` for a directory is not reached.
pub count_file : Mode → Counters → Counters
count_file Mode.reg c = record c { nreg = c.nreg + 1 }
count_file Mode.blk c = record c { nblk = c.nblk + 1 }
count_file Mode.chr c = record c { nchr = c.nchr + 1 }
count_file Mode.fifo c = record c { nfifo = c.nfifo + 1 }
count_file Mode.lnk c = record c { nslink = c.nslink + 1 }
count_file Mode.sock c = record c { nsock = c.nsock + 1 }
count_file Mode.dir c = c
count_file Mode.other c = c

pub myfunc : Myfunc Counters
myfunc path (file m) c = (0, count_file m c)
myfunc path directory c = (0, record c { ndir = c.ndir + 1 })
myfunc path unreadable c = (0, c)
myfunc path unknown c = (0, c)

-- `ntot` of `main`, which is made 1 to divide by.
pub total : Counters → ℕ
total c =
    let ntot = c.nreg + c.ndir + c.nblk + c.nchr + c.nfifo + c.nslink + c.nsock in
    if ntot == 0 then 1 else ntot

-- `myftw`; `conf` and `st` are what `path_alloc` asks and its static variables.
pub myftw : {S : Type 0} → ℕ → Conf → Statics → FileSystem → FilePath → Myfunc S → S → Walk S
myftw k conf st fs pathname func s =
    let start : ℕ → Walk _ = λ pathlen.
      elim (put (record { fullpath = []; pathlen = pathlen }) 0 pathname) [
        | none ↦ overrun
        | some b ↦ dopath k fs func b s
      ] in
    elim (path_alloc conf st) [
      | none ↦ exited
      | some (size, _) ↦
          if leb size (length pathname)
          then (if fs.realloc (length pathname * 2) then start (length pathname * 2) else exited)
          else start size
    ]

-- `main` up to its output: the status, and the counters with their total.
pub main : ℕ → Conf → FileSystem → List FilePath → Option (ℕ × Counters × ℕ)
main k conf fs argv =
    let walk = myftw k conf statics fs (get_or argv 1 []) myfunc no_files in
    if length argv == 2
    then elim walk [ done ret b c ↦ some (ret, c, total c) | _ ↦ none ]
    else none
