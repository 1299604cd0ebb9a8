-- ===== src/FileWalk/Preorder.antt =====
-- The walk of APUE/filenum.c over a tree: its visits, its buffer and its end.
use temp.Base.{
  ℕ, zero, suc, ◌+◌, ◌-◌, ◌*◌, ◌≤◌, ◌<◌, ◌≡◌, ◌∙◌, refl, sym, ap, true, false, Bool-cases, inl, inr,
  some, List, [], ◌∷◌, ◌++◌, length, take, length-append, length-take, arith, ltb, ◌==◌,
}
use temp.Base.History.{same_text}
use temp.FileWalk.{
  FilePath, FileSystem, Mode, Visit, file, directory, unreadable, unknown, Myfunc, Buffer, Walk,
  done, is_dot, put, cut, grow, visit, entries, enter_dir, dopath,
}
use temp.FileWalk.Tree.{
  Node, missing, locked, leaf, folder, Entries, end, here, above, entry, names, inside, Shows,
  Holds, visits, visits_in, depth, depth_in, run, run-append, and_then,
}

-- The buffer starts with the path, holds a text that fits, and is not smaller than it was.
pub record Fits (p : FilePath) (low : ℕ) (b : Buffer) : Type 0 where
  pub starts : take (length p) b.fullpath ≡ p
  pub room : length b.fullpath < b.pathlen
  pub large : low ≤ b.pathlen

-- The walk returns with this result and state, and with such a buffer.
abbrev pub Walked : {S : Type 0} → FilePath → ℕ → ℕ × S → Walk S → Type 0
Walked p low r w = (b' : Buffer) × (w ≡ done r.0 b' r.1) × Fits p low b'

-- The file system never lacks memory.
abbrev pub HasMemory : FileSystem → Type 0
HasMemory fs = (n : ℕ) → fs.realloc n ≡ true

take_prefix : (p q : FilePath) → take (length p) (p ++ q) ≡ p
take_prefix [] q = refl
take_prefix (x ∷ p) q = ap (λ t. x ∷ t) (take_prefix p q)

take-take : (m n : ℕ) (xs : FilePath) → m ≤ n → take m (take n xs) ≡ take m xs
take-take zero n xs h = refl
take-take (suc m) zero xs h = absurd (omega arith)
take-take (suc m) (suc n) [] h = refl
take-take (suc m) (suc n) (x ∷ xs) h = ap (λ t. x ∷ t) (take-take m n xs (omega arith))

starts_prefix :
    (p q full : FilePath) → take (length (p ++ q)) full ≡ p ++ q → take (length p) full ≡ p
starts_prefix p q full h =
    sym (take-take (length p) (length (p ++ q)) full (omega (arith, length-append p q)))
    ∙ ap (take (length p)) h
    ∙ take_prefix p q

Fits-prefix : (p q : FilePath) (low : ℕ) (b : Buffer) → Fits (p ++ q) low b → Fits p low b
Fits-prefix p q low b f = record {
  starts = starts_prefix p q b.fullpath f.starts;
  room = f.room;
  large = f.large;
}

Walked-mono :
    {S : Type 0} (p : FilePath) (low low' : ℕ) (r : ℕ × S) (w : Walk S)
    → low ≤ low'
    → Walked p low' r w
    → Walked p low r w
Walked-mono p low low' r w le (b, e, f) =
    (b, e, record { starts = f.starts; room = f.room; large = omega (arith, f.large) })

take_self : (p : FilePath) → take (length p) p ≡ p
take_self [] = refl
take_self (x ∷ p) = ap (λ t. x ∷ t) (take_self p)

Fits-self : (p : FilePath) (m : ℕ) → length p < m → Fits p m (record { fullpath = p; pathlen = m })
Fits-self p m room = record { starts = take_self p; room = room; large = omega arith }

put_fits :
    (b : Buffer) (n : ℕ) (p name : FilePath)
    → n ≡ length p
    → take (length p) b.fullpath ≡ p
    → n + length name < b.pathlen
    → put b n name ≡ some (record b { fullpath = p ++ name })
unfolding put
put_fits b n p name e starts l =
    let fits : ltb (length p + length name) b.pathlen ≡ true = ground arith in
    rw (e, fits, starts) refl

grow_fits :
    (fs : FileSystem) (b : Buffer)
    → HasMemory fs
    → 256 ≤ b.pathlen
    → length b.fullpath < b.pathlen
    → (m : ℕ) × (grow fs b (length b.fullpath) ≡ some (record b { pathlen = m }))
      × (b.pathlen ≤ m)
      × (length b.fullpath + 257 ≤ m)
unfolding grow
grow_fits fs b memory large room = elim (Bool-cases (ltb b.pathlen (length b.fullpath + 255 + 2))) [
  | inl y ↦ (b.pathlen * 2, rw (y, memory (b.pathlen * 2)) refl, omega arith, omega arith)
  | inr y ↦ (b.pathlen, rw y refl, omega arith, ground arith)
]

cut-Fits :
    (b : Buffer) (n low : ℕ) (p q : FilePath)
    → n ≡ length p + 1
    → low ≤ b.pathlen
    → length b.fullpath < b.pathlen
    → take (length (p ++ q)) b.fullpath ≡ p ++ q
    → Fits p low (cut b n)
unfolding cut
cut-Fits b n low p q e le room starts =
    let last : n - 1 ≡ length p = omega arith in
    record {
      starts =
          take-take (length p) (n - 1) b.fullpath (omega arith)
          ∙ starts_prefix p q b.fullpath starts;
      room = omega (arith, length-take (n - 1) b.fullpath);
      large = le;
    }

module _ {S : Type 0} (fs : FileSystem) (func : Myfunc S) (memory : HasMemory fs) where
  -- What follows for the other entries when the walk of one has come to its end.
  next_entry :
      (go : Buffer → S → Walk S) (n low : ℕ) (p name : FilePath) (es : Entries) (b : Buffer) (s : S)
      (r : ℕ × S)
      → is_dot name ≡ false
      → n ≡ length (inside p)
      → length p + 257 ≤ b.pathlen
      → length name ≤ 255
      → low ≤ b.pathlen
      → take (length (inside p)) b.fullpath ≡ inside p
      → Walked (inside p ++ name) b.pathlen r (go (record b { fullpath = inside p ++ name }) s)
      → ((b' : Buffer)
          → Fits (inside p) b.pathlen b'
          → Walked p low (run func (visits_in es p) r.1) (entries go n (names es) 0 b' r.1))
      → Walked p low (and_then r (run func (visits_in es p))) (entries go n (name ∷ names es) 0 b s)
  unfolding entries
  next_entry go n low p name es b s r nodot e size short le starts (b₂, walked, f) rest =
      let place : n ≡ length p + 1 = e ∙ length-append p (b'/' ∷ []) in
      let put_name = put_fits b n (inside p) name e starts (omega arith) in
      let fits : Fits (inside p) b.pathlen b₂ = Fits-prefix (inside p) name b.pathlen b₂ f in
      elim (Bool-cases (r.0 == 0)) [
        | inl y ↦
            let none_returned : r.0 ≡ 0 = ground arith in
            rw (nodot, put_name, walked, y, and_then) (rw (← none_returned) at (rest b₂ fits))
        | inr y ↦
            rw (nodot, put_name, walked, y, and_then)
              (
                cut b₂ n,
                refl,
                cut-Fits b₂ n low p (b'/' ∷ []) place (omega (arith, f.large)) f.room fits.starts,
              )
      ]

  -- That walks with the fuel `k` are as specified.
  abbrev Walks : ℕ → Type 0
  Walks k =
      (t : Node) (p : FilePath) (m : ℕ) (s : S)
      → Shows fs t p
      → depth t < k
      → length p < m
      → 256 ≤ m
      → Walked p m (run func (visits t p) s)
          (dopath k fs func (record { fullpath = p; pathlen = m }) s)

  walk_in :
      (es : Entries) (p : FilePath) (k n : ℕ) (b : Buffer) (s : S)
      → Walks k
      → Holds fs es p
      → depth_in es < k
      → n ≡ length (inside p)
      → Fits (inside p) 256 b
      → length p + 257 ≤ b.pathlen
      → Walked p b.pathlen
          (run func (visits_in es p) s)
          (entries (dopath k fs func) n (names es) 0 b s)
  unfolding Shows visits depth run entries is_dot same_text
  walk_in end p k n b s walks held fuel e fits size = (
    cut b n,
    refl,
    cut-Fits b n b.pathlen p (b'/' ∷ []) (e ∙ length-append p (b'/' ∷ [])) (omega arith) fits.room
        fits.starts,
  )
  walk_in (here es) p k n b s walks held fuel e fits size =
      walk_in es p k n b s walks held fuel e fits size
  walk_in (above es) p k n b s walks held fuel e fits size =
      walk_in es p k n b s walks held fuel e fits size
  walk_in (entry name t es) p k n b s walks (nodot, short, shows, held) fuel e fits size =
      rw (run-append func (visits t (inside p ++ name)) (visits_in es p) s) (
        next_entry (dopath k fs func) n b.pathlen p name es b s
          (run func (visits t (inside p ++ name)) s) nodot e size short (omega arith) fits.starts
          (walks t (inside p ++ name) b.pathlen s shows (omega arith)
            (omega (arith, length-append (inside p) name, length-append p (b'/' ∷ []))) fits.large)
          (λ b' f. Walked-mono p b.pathlen b'.pathlen _ _ f.large (
            walk_in es p k n b' (run func (visits t (inside p ++ name)) s).1 walks held
              (omega arith) e (record { starts = f.starts; room = f.room; large = omega arith })
              (omega arith))))

  run_last : (p : FilePath) (v : Visit) (s : S) → run func ((p, v) ∷ []) s ≡ func p v s
  unfolding run
  run_last p v s = elim (Bool-cases ((func p v s).0 == 0)) [
    | inl y ↦
        let none_returned : (func p v s).0 ≡ 0 = ground arith in
        rw (y, and_then) (ap (λ r. (r, (func p v s).1)) (sym none_returned))
    | inr y ↦ rw (y, and_then) refl
  ]

  visit_last :
      (p : FilePath) (low : ℕ) (v : Visit) (b : Buffer) (s : S)
      → Fits p low b
      → Walked p low (run func ((b.fullpath, v) ∷ []) s) (visit func v b s)
  unfolding visit
  visit_last p low v b s f = rw (run_last b.fullpath v s) (b, refl, f)

  -- A directory comes before what it holds.
  visit_first :
      (k m : ℕ) (p : FilePath) (rest : List (FilePath × Visit)) (s : S)
      → fs.lstat p ≡ some Mode.dir
      → length p < m
      → Walked p m (run func rest (func p directory s).1) (
          enter_dir fs func
            (dopath k fs func)
            (record { fullpath = p; pathlen = m })
            (func p directory s).1)
      → Walked p m
          (run func ((p, directory) ∷ rest) s)
          (dopath (suc k) fs func (record { fullpath = p; pathlen = m }) s)
  unfolding dopath visit run
  visit_first k m p rest s is_folder room inner = elim (Bool-cases ((func p directory s).0 == 0)) [
    | inl y ↦ rw (is_folder, y, and_then, dopath) inner
    | inr y ↦
        rw (is_folder, y, and_then, dopath)
          (record { fullpath = p; pathlen = m }, refl, Fits-self p m room)
  ]

  walk : (k : ℕ) → Walks k
  unfolding Shows visits depth dopath enter_dir
  walk zero t p m s shows fuel room large = absurd (omega arith)
  walk (suc k) missing p m s shows fuel room large =
      rw (shows, dopath)
        (visit_last p m unknown (record { fullpath = p; pathlen = m }) s (Fits-self p m room))
  walk (suc k) (leaf mode) p m s (is_leaf, no_folder) fuel room large =
      rw (is_leaf, no_folder, dopath)
        (visit_last p m (file mode) (record { fullpath = p; pathlen = m }) s (Fits-self p m room))
  walk (suc k) locked p m s (is_folder, shut) fuel room large =
      let s' = (func p directory s).1 in
      let (m', grown, le, wide) =
        grow_fits fs (record { fullpath = p; pathlen = m }) memory large room in
      let slash =
        put_fits (record { fullpath = p; pathlen = m' }) (length p) p (b'/' ∷ []) refl (take_self p)
          (omega arith) in
      visit_first k m p ((inside p, unreadable) ∷ []) s is_folder room (
        rw (grown, slash, shut, enter_dir)
          (Walked-mono p m m' _ _ le (
            visit_last p m' unreadable (record { fullpath = inside p; pathlen = m' }) s'
              (Fits-prefix p (b'/' ∷ []) m' _
                (Fits-self (inside p) m' (omega (arith, length-append p (b'/' ∷ []))))))))
  walk (suc k) (folder es) p m s (is_folder, listed, held) fuel room large =
      let s' = (func p directory s).1 in
      let (m', grown, le, wide) =
        grow_fits fs (record { fullpath = p; pathlen = m }) memory large room in
      let slash =
        put_fits (record { fullpath = p; pathlen = m' }) (length p) p (b'/' ∷ []) refl (take_self p)
          (omega arith) in
      visit_first k m p (visits_in es p) s is_folder room (
        rw (grown, slash, listed, enter_dir)
          (Walked-mono p m m' _ _ le (
            walk_in es p k (length p + 1) (record { fullpath = inside p; pathlen = m' }) s' (walk k)
              held (omega arith) (sym (length-append p (b'/' ∷ [])))
              (record {
                starts = take_self (inside p);
                room = omega (arith, length-append p (b'/' ∷ []));
                large = omega arith;
              })
              wide)))

-- On a tree that the file system shows at `p`, `dopath` comes to its end with as much fuel as the tree is
-- deep: it calls `func` for exactly the visits of the tree, in their order, up to the first that does not
-- return 0, gives back that result, never writes behind the buffer, and leaves it starting with `p`. The
-- buffer has room for the path, and at least 256 bytes; memory does not run out.
pub dopath_lem :
    {S : Type 0} (fs : FileSystem) (func : Myfunc S) (t : Node) (p : FilePath) (k m : ℕ) (s : S)
    → HasMemory fs
    → Shows fs t p
    → depth t < k
    → length p < m
    → 256 ≤ m
    → (b' : Buffer) × (dopath k fs func (record { fullpath = p; pathlen = m }) s
        ≡ done (run func (visits t p) s).0 b' (run func (visits t p) s).1)
      × Fits p m b'
dopath_lem fs func t p k m s memory shows fuel room large =
    walk fs func memory k t p m s shows fuel room large
