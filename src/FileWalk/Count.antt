-- ===== src/FileWalk/Count.antt =====
-- The counters of APUE/filenum.c against the tree that was walked.
use temp.Base.{
  ℕ, ◌+◌, ◌≤◌, ◌<◌, ◌≡◌, ◌∙◌, ap, true, some, ◌++◌, length, arith, ◌==◌, if◌then◌else◌, Bool-cases,
  inl, inr, leb, ltb, ◌*◌,
}
use temp.FileWalk.{
  FilePath, FileSystem, Mode, done, Buffer, Counters, count_file, myfunc, myftw, put, Conf, Statics,
  path_alloc,
}
use temp.FileWalk.Tree.{
  Node, missing, locked, leaf, folder, Entries, end, here, above, entry, inside, Shows, visits,
  visits_in, depth, run, run-append, and_then,
}
use temp.FileWalk.Preorder.{HasMemory, dopath_lem}

abbrev number : Mode → ℕ
number Mode.dir = 0
number Mode.reg = 1
number Mode.blk = 2
number Mode.chr = 3
number Mode.fifo = 4
number Mode.lnk = 5
number Mode.sock = 6
number Mode.other = 7

-- The files of one mode, and the directories, in a tree.
mutual
  pub many : Mode → Node → ℕ
  many k missing = 0
  many k locked = 0
  many k (leaf m) = if number k == number m then 1 else 0
  many k (folder es) = many_in k es

  pub many_in : Mode → Entries → ℕ
  many_in k end = 0
  many_in k (here es) = many_in k es
  many_in k (above es) = many_in k es
  many_in k (entry name t es) = many k t + many_in k es

mutual
  pub folders : Node → ℕ
  folders missing = 0
  folders locked = 1
  folders (leaf m) = 0
  folders (folder es) = 1 + folders_in es

  pub folders_in : Entries → ℕ
  folders_in end = 0
  folders_in (here es) = folders_in es
  folders_in (above es) = folders_in es
  folders_in (entry name t es) = folders t + folders_in es

-- The counters after the files of a tree have been added to them.
abbrev pub after : Counters → Node → Counters
after c t = record {
  nreg = c.nreg + many Mode.reg t;
  ndir = c.ndir + folders t;
  nblk = c.nblk + many Mode.blk t;
  nchr = c.nchr + many Mode.chr t;
  nfifo = c.nfifo + many Mode.fifo t;
  nslink = c.nslink + many Mode.lnk t;
  nsock = c.nsock + many Mode.sock t;
}

abbrev after_in : Counters → Entries → Counters
after_in c es = record {
  nreg = c.nreg + many_in Mode.reg es;
  ndir = c.ndir + folders_in es;
  nblk = c.nblk + many_in Mode.blk es;
  nchr = c.nchr + many_in Mode.chr es;
  nfifo = c.nfifo + many_in Mode.fifo es;
  nslink = c.nslink + many_in Mode.lnk es;
  nsock = c.nsock + many_in Mode.sock es;
}

run_leaf : (m : Mode) (c : Counters) → count_file m c ≡ after c (leaf m)
unfolding count_file many folders
run_leaf Mode.dir c = ground arith
run_leaf Mode.reg c = ground arith
run_leaf Mode.blk c = ground arith
run_leaf Mode.chr c = ground arith
run_leaf Mode.fifo c = ground arith
run_leaf Mode.lnk c = ground arith
run_leaf Mode.sock c = ground arith
run_leaf Mode.other c = ground arith

mutual
  unfolding visits run myfunc many folders

  run_counts : (t : Node) (p : FilePath) (c : Counters) → run myfunc (visits t p) c ≡ (0, after c t)
  run_counts missing p c = ap (λ x. (0, x)) (ground arith)
  run_counts locked p c = ap (λ x. (0, x)) (ground arith)
  run_counts (leaf m) p c = ap (λ x. (0, x)) (run_leaf m c)
  run_counts (folder es) p c =
      run_counts_in es p (record c { ndir = c.ndir + 1 }) ∙ ap (λ x. (0, x)) (ground arith)

  run_counts_in :
      (es : Entries) (p : FilePath) (c : Counters)
      → run myfunc (visits_in es p) c ≡ (0, after_in c es)
  run_counts_in end p c = ap (λ x. (0, x)) (ground arith)
  run_counts_in (here es) p c = run_counts_in es p c
  run_counts_in (above es) p c = run_counts_in es p c
  run_counts_in (entry name t es) p c =
      run-append myfunc (visits t (inside p ++ name)) (visits_in es p) c
      ∙ ap (λ x. and_then x (run myfunc (visits_in es p))) (run_counts t (inside p ++ name) c)
      ∙ run_counts_in es p (after c t)
      ∙ ap (λ x. (0, x)) (ground arith)

-- `myftw` with `myfunc` on a tree that the file system shows at the path: the walk returns 0, and each
-- counter has grown by the number of files of its kind in the tree, where a directory counts whether or
-- not it can be read. The first buffer has at least 256 bytes; memory does not run out.
pub myftw_counts :
    (k : ℕ) (conf : Conf) (st : Statics) (fs : FileSystem) (p : FilePath) (t : Node) (c : Counters)
    {size : ℕ} {st' : Statics}
    → path_alloc conf st ≡ some (size, st')
    → 256 ≤ size
    → HasMemory fs
    → Shows fs t p
    → depth t < k
    → (b' : Buffer) × (myftw k conf st fs p myfunc c ≡ done 0 b' (after c t))
unfolding myftw put
myftw_counts k conf st fs p t c {size} {st'} got large memory shows fuel =
    elim (Bool-cases (leb size (length p))) [
      | inl y ↦
          let (b', walked, fits) =
            dopath_lem fs myfunc t p k (length p * 2) c memory shows fuel (ground arith)
              (ground arith) in
          let room : ltb (0 + length p) (length p * 2) ≡ true = ground arith in
          (
            b',
            rw (got, y, memory (length p * 2), room, myftw, put)
                (walked ∙ ap (λ r. done r.0 b' r.1) (run_counts t p c)),
          )
      | inr y ↦
          let room : ltb (0 + length p) size ≡ true = ground arith in
          let (b', walked, fits) =
            dopath_lem fs myfunc t p k size c memory shows fuel (ground arith) large in
          (
            b',
            rw (got, y, room, myftw, put) (walked ∙ ap (λ r. done r.0 b' r.1) (run_counts t p c)),
          )
    ]
