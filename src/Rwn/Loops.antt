-- ===== src/Rwn/Loops.antt =====
-- `readn` and `writen` of APUE/rwn.c come to their end, and transfer what their results say.
use temp.Base.{
  ℕ, zero, suc, ◌+◌, ◌-◌, ◌≤◌, ◌<◌, ◌≡◌, ◌∙◌, refl, sym, ap, Option, none, some, List, [], ◌∷◌,
  ◌++◌, append-nil, append_assoc, arith, Bool-cases, inl, inr, ◌⊎◌, Option-cases, length, take,
  drop, length-take, length-append, ◌==◌,
}
use temp.Base.Traffic.{
  accepted, written, got, written_write, got_read, got_write, written_read, take_all,
}
use temp.Base.Sys.{Call, Env, ret, read, write}
use temp.Rwn.{readn_loop, readn, writen_loop, writen}

-- `read` gives at most the bytes asked for, and as many as it says.
abbrev pub ReadBounded : Env → ℕ → Type 0
ReadBounded e f =
    (n k : ℕ) (h : List Call)
    → (e (read f n ∷ h)).ret ≡ some k
    → (k ≤ n) × (k ≤ length (e (read f n ∷ h)).bytes)

abbrev pub WriteBounded : Env → ℕ → Type 0
WriteBounded e f =
    (text : List ℕ) (k : ℕ) (h : List Call) → (e (write f text ∷ h)).ret ≡ some k → k ≤ length text

-- The last call transferred nothing: it failed, or gave 0.
abbrev pub Stalled : Env → Call → List Call → Type 0
Stalled e c h' = (t : List Call) × (h' ≡ c ∷ t) × (((e h').ret ≡ none) ⊎ ((e h').ret ≡ some 0))

abbrev pub WriteStalled : Env → ℕ → List Call → Type 0
WriteStalled e fd h' = (text : List ℕ) × (0 < length text) × Stalled e (write fd text) h'

abbrev pub ReadStalled : Env → ℕ → List Call → Type 0
ReadStalled e fd h' = (n : ℕ) × (0 < n) × Stalled e (read fd n) h'

abbrev pub SameGot : Env → List Call → List Call → Type 0
SameGot e h h' = (f : ℕ) → got e f h' ≡ got e f h

abbrev pub SameWritten : Env → List Call → List Call → Type 0
SameWritten e h h' = (f : ℕ) → written e f h' ≡ written e f h

-- What `writen` has done when it returns `r`, where the first `d` bytes were written before `h`.
abbrev pub Wrote : Env → ℕ → ℕ → ℕ → List ℕ → List Call → Option ℕ → List Call → Type 0
Wrote e fd n d ptr h none h' =
    (d ≡ 0) × (0 < n) × (written e fd h' ≡ written e fd h) × WriteStalled e fd h' × SameGot e h h'
Wrote e fd n d ptr h (some m) h' =
    (d ≤ m)
    × (m ≤ n)
    × (written e fd h' ≡ written e fd h ++ take (m - d) ptr)
    × ((m ≡ n) ⊎ WriteStalled e fd h')
    × SameGot e h h'

pub length-eq-zero : (xs : List ℕ) → length xs ≡ 0 → xs ≡ []
length-eq-zero [] z = refl
length-eq-zero (x ∷ xs) z = absurd (omega arith)

take_split : (j p : ℕ) (xs : List ℕ) → take j xs ++ take p (drop j xs) ≡ take (j + p) xs
take_split zero p xs = ap (λ m. take m xs) (omega arith)
take_split (suc j) zero [] = let e : suc j + 0 ≡ suc j = omega arith in rw e refl
take_split (suc j) (suc p) [] = let e : suc j + suc p ≡ suc (j + suc p) = omega arith in rw e refl
take_split (suc j) p (x ∷ xs) =
    let e : suc j + p ≡ suc (j + p) = omega arith in rw e (ap (λ t. x ∷ t) (take_split j p xs))

length-drop : (j : ℕ) (xs : List ℕ) → length (drop j xs) ≡ length xs - j
length-drop zero xs = omega arith
length-drop (suc j) [] = omega arith
length-drop (suc j) (x ∷ xs) = omega (arith, length-drop j xs)

module _ (e : Env) (fd n : ℕ) where
  -- A write that takes nothing leaves what was written.
  written_nothing :
      (text : List ℕ) (h : List Call) {o : Option ℕ}
      → (e (write fd text ∷ h)).ret ≡ o
      → accepted o text ≡ []
      → written e fd (write fd text ∷ h) ≡ written e fd h
  written_nothing text h x a =
      written_write e fd text h
      ∙ ap (λ o. written e fd h ++ accepted o text) x
      ∙ ap (λ t. written e fd h ++ t) a
      ∙ append-nil (written e fd h)

  -- A write that takes `suc j` bytes, and what is done after it.
  Wrote-step :
      (left j : ℕ) (ptr : List ℕ) (h h' : List Call) (r : Option ℕ)
      → suc left ≤ n
      → j ≤ left
      → (e (write fd ptr ∷ h)).ret ≡ some (suc j)
      → Wrote e fd n (n - (left - j)) (drop (suc j) ptr) (write fd ptr ∷ h) r h'
      → Wrote e fd n (n - suc left) ptr h r h'
  Wrote-step left j ptr h h' none hn hj x (none_left, some_asked, w, stalled, same) =
      absurd (omega arith)
  Wrote-step left j ptr h h' (some m) hn hj x (low, high, w, end, same) =
      let first : written e fd (write fd ptr ∷ h) ≡ written e fd h ++ take (suc j) ptr =
        written_write e fd ptr h ∙ ap (λ o. written e fd h ++ accepted o ptr) x in
      let sum : suc j + (m - (n - (left - j))) ≡ m - (n - suc left) = omega arith in
      (
        omega arith,
        high,
        w
            ∙ ap (λ t. t ++ take (m - (n - (left - j))) (drop (suc j) ptr)) first
            ∙ append_assoc (written e fd h) (take (suc j) ptr) _
            ∙ ap (λ t. written e fd h ++ t)
                (take_split (suc j) (m - (n - (left - j))) ptr ∙ ap (λ p. take p ptr) sum),
        end,
        λ f. same f ∙ got_write e f fd ptr h,
      )

  nothing_more :
      (d : ℕ) (ptr : List ℕ) (h : List Call) → d ≡ 0 → written e fd h ≡ written e fd h ++ take d ptr
  nothing_more d ptr h z = rw z (sym (append-nil (written e fd h)))

  writen_loop_lem :
      (k left : ℕ) (ptr : List ℕ) (h : List Call)
      → WriteBounded e fd
      → left ≤ k
      → left ≤ n
      → length ptr ≡ left
      → (r : Option ℕ) × (h' : List Call) × (writen_loop k fd n left ptr e h ≡ ret r h')
        × Wrote e fd n (n - left) ptr h r h'
  unfolding writen_loop
  writen_loop_lem k zero ptr h b hk hn len = (
    some n,
    h,
    refl,
    (omega arith, omega arith, nothing_more (n - (n - 0)) ptr h (omega arith), inl refl, λ f. refl),
  )
  writen_loop_lem zero (suc left) ptr h b hk hn len = absurd (omega arith)
  writen_loop_lem (suc k) (suc left) ptr h b hk hn len =
      let whole : take (suc left) ptr ≡ ptr = take_all (suc left) ptr (omega arith) in
      let h₁ = write fd ptr ∷ h in
      elim (Option-cases (e h₁).ret) [
        | inl x ↦
            let same = written_nothing ptr h x refl in
            elim (Bool-cases (suc left == n)) [
              | inl y ↦ (
                none,
                h₁,
                rw (whole, x, y) refl,
                (
                  ground arith,
                  omega arith,
                  same,
                  (ptr, omega arith, (h, refl, inl x)),
                  λ f. got_write e f fd ptr h,
                ),
              )
              | inr y ↦ (
                some (n - suc left),
                h₁,
                rw (whole, x, y) refl,
                (
                  omega arith,
                  omega arith,
                  same ∙ nothing_more (n - suc left - (n - suc left)) ptr h (omega arith),
                  inr (ptr, omega arith, (h, refl, inl x)),
                  λ f. got_write e f fd ptr h,
                ),
              )
            ]
        | inr (zero, x) ↦ (
          some (n - suc left),
          h₁,
          rw (whole, x) refl,
          (
            omega arith,
            omega arith,
            written_nothing ptr h x refl
                ∙ nothing_more (n - suc left - (n - suc left)) ptr h (omega arith),
            inr (ptr, omega arith, (h, refl, inr x)),
            λ f. got_write e f fd ptr h,
          ),
        )
        | inr (suc j, x) ↦
            let le : suc j ≤ length ptr = b ptr (suc j) h x in
            let (r, h', run, wrote) =
              writen_loop_lem k (left - j) (drop (suc j) ptr) h₁ b (omega arith) (omega arith)
                (omega (arith, length-drop (suc j) ptr)) in
            (r, h', rw (whole, x) run, Wrote-step left j ptr h h' r hn (omega arith) x wrote)
      ]

-- What `readn` has done when it returns `r` with `stored'`, after the bytes `stored`.
abbrev pub Stored : Env → ℕ → ℕ → List ℕ → List Call → Option ℕ × List ℕ → List Call → Type 0
Stored e fd n stored h (none, stored') h' =
    (stored ≡ [])
    × (0 < n)
    × (stored' ≡ [])
    × (got e fd h' ≡ got e fd h)
    × ReadStalled e fd h'
    × SameWritten e h h'
Stored e fd n stored h (some m, stored') h' =
    (m ≤ n)
    × (length stored' ≡ m)
    × ((x : List ℕ) × (stored' ≡ stored ++ x) × (got e fd h' ≡ got e fd h ++ x))
    × ((m ≡ n) ⊎ ReadStalled e fd h')
    × SameWritten e h h'

module _ (e : Env) (fd n : ℕ) where
  pub got_nothing :
      (m : ℕ) (h : List Call) {o : Option ℕ}
      → (e (read fd m ∷ h)).ret ≡ o
      → accepted o (e (read fd m ∷ h)).bytes ≡ []
      → got e fd (read fd m ∷ h) ≡ got e fd h
  got_nothing m h x a =
      got_read e fd m h
      ∙ ap (λ o. got e fd h ++ accepted o (e (read fd m ∷ h)).bytes) x
      ∙ ap (λ t. got e fd h ++ t) a
      ∙ append-nil (got e fd h)

  -- The end of `readn` with `stored` and nothing more.
  Stored-stop :
      (left : ℕ) (stored : List ℕ) (h h' : List Call)
      → length stored ≡ n - left
      → got e fd h' ≡ got e fd h
      → ((n - left ≡ n) ⊎ ReadStalled e fd h')
      → SameWritten e h h'
      → Stored e fd n stored h (some (n - left), stored) h'
  Stored-stop left stored h h' len same end keep = (
    omega arith,
    len,
    ([], sym (append-nil stored), same ∙ sym (append-nil (got e fd h))),
    end,
    keep,
  )

  Stored-step :
      (left j : ℕ) (stored : List ℕ) (h h' : List Call) (r : Option ℕ × List ℕ)
      → suc left ≤ n
      → suc j ≤ length (e (read fd (suc left) ∷ h)).bytes
      → (e (read fd (suc left) ∷ h)).ret ≡ some (suc j)
      → Stored e fd n
          (stored ++ take (suc j) (e (read fd (suc left) ∷ h)).bytes)
          (read fd (suc left) ∷ h)
          r
          h'
      → Stored e fd n stored h r h'
  Stored-step left j stored h h' (none, stored') hn hj x
        (empty, asked, none_stored, same, end, keep) =
      let now = take (suc j) (e (read fd (suc left) ∷ h)).bytes in
      absurd (
        omega (
          arith,
          ap length empty,
          length-append stored now,
          length-take (suc j) (e (read fd (suc left) ∷ h)).bytes,
        ))
  Stored-step left j stored h h' (some m, stored') hn hj x (high, len, (y, parts, w), end, keep) =
      let now = take (suc j) (e (read fd (suc left) ∷ h)).bytes in
      let first : got e fd (read fd (suc left) ∷ h) ≡ got e fd h ++ now =
        got_read e fd (suc left) h
        ∙ ap (λ o. got e fd h ++ accepted o (e (read fd (suc left) ∷ h)).bytes) x in
      (
        high,
        len,
        (
          now ++ y,
          parts ∙ append_assoc stored now y,
          w ∙ ap (λ t. t ++ y) first ∙ append_assoc (got e fd h) now y,
        ),
        end,
        λ f. keep f ∙ written_read e f fd (suc left) h,
      )

  readn_loop_lem :
      (k left : ℕ) (stored : List ℕ) (h : List Call)
      → ReadBounded e fd
      → left ≤ k
      → left ≤ n
      → length stored ≡ n - left
      → (r : Option ℕ × List ℕ) × (h' : List Call) × (readn_loop k fd n left stored e h ≡ ret r h')
        × Stored e fd n stored h r h'
  unfolding readn_loop
  readn_loop_lem k zero stored h b hk hn len = (
    (some n, stored),
    h,
    refl,
    (
      omega arith,
      omega (arith, len),
      ([], sym (append-nil stored), sym (append-nil (got e fd h))),
      inl refl,
      λ f. refl,
    ),
  )
  readn_loop_lem zero (suc left) stored h b hk hn len = absurd (omega arith)
  readn_loop_lem (suc k) (suc left) stored h b hk hn len =
      let h₁ = read fd (suc left) ∷ h in
      elim (Option-cases (e h₁).ret) [
        | inl x ↦
            let same = got_nothing (suc left) h x refl in
            elim (Bool-cases (suc left == n)) [
              | inl y ↦
                  let empty : stored ≡ [] = length-eq-zero stored (ground arith) in
                  (
                    (none, stored),
                    h₁,
                    rw (x, y) refl,
                    (
                      empty,
                      omega arith,
                      empty,
                      same,
                      (suc left, omega arith, (h, refl, inl x)),
                      λ f. written_read e f fd (suc left) h,
                    ),
                  )
              | inr y ↦ (
                (some (n - suc left), stored),
                h₁,
                rw (x, y) refl,
                Stored-stop (suc left) stored h h₁ len same
                    (inr (suc left, omega arith, (h, refl, inl x)))
                    (λ f. written_read e f fd (suc left) h),
              )
            ]
        | inr (zero, x) ↦ (
          (some (n - suc left), stored),
          h₁,
          rw x refl,
          Stored-stop (suc left) stored h h₁ len (got_nothing (suc left) h x refl)
              (inr (suc left, omega arith, (h, refl, inr x)))
              (λ f. written_read e f fd (suc left) h),
        )
        | inr (suc j, x) ↦
            let now = take (suc j) (e h₁).bytes in
            let (asked, given) = b (suc left) (suc j) h x in
            let size : length (stored ++ now) ≡ n - (left - j) =
              omega (arith, length-append stored now, length-take (suc j) (e h₁).bytes) in
            let (r, h', run, done) =
              readn_loop_lem k (left - j) (stored ++ now) h₁ b (omega arith) (omega arith) size in
            (r, h', rw x run, Stored-step left j stored h h' r hn given x done)
      ]

-- `writen` comes to its end, whatever counts `write` gives. When it returns `m`, exactly the first `m`
-- bytes of the text have been written, and if these are not all, the last `write` failed or took
-- nothing; when it returns -1, nothing has been written.
pub writen_lem :
    (fd : ℕ) (text : List ℕ) (e : Env) (h : List Call)
    → WriteBounded e fd
    → (r : Option ℕ) × (h' : List Call) × (writen fd text (length text) e h ≡ ret r h')
      × Wrote e fd (length text) 0 text h r h'
unfolding writen
writen_lem fd text e h b =
    let zero_done : length text - length text ≡ 0 = omega arith in
    rw zero_done at (
      writen_loop_lem e fd (length text) (length text) (length text) text h b (omega arith)
        (omega arith) refl)

-- `readn` comes to its end, whatever counts `read` gives. When it returns `m`, it has stored `m` bytes,
-- which are those that it got from the descriptor, in order, and if `m` is not `n`, the last `read`
-- failed or gave nothing; when it returns -1, it has stored and got nothing.
pub readn_lem :
    (fd n : ℕ) (e : Env) (h : List Call)
    → ReadBounded e fd
    → (r : Option ℕ × List ℕ) × (h' : List Call) × (readn fd n e h ≡ ret r h')
      × Stored e fd n [] h r h'
unfolding readn
readn_lem fd n e h b = readn_loop_lem e fd n n n [] h b (omega arith) (omega arith) (omega arith)
