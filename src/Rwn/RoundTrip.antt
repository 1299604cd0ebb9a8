-- ===== src/Rwn/RoundTrip.antt =====
-- `writen` into a pipe and `readn` out of it, as each side of it uses them.
use temp.Base.{
  ℕ, ◌<◌, ◌≡◌, ◌≢◌, ◌∙◌, refl, sym, ap, Option, none, some, List, [], ◌∷◌, ◌++◌, append_assoc,
  arith, ◌⊎◌, inl, inr, length, length-append, append-nil, ◌-◌, take, ap₂,
}
use temp.Base.Traffic.{take_all, written, got, written_read}
use temp.Base.Sys.{Call, Env, ret, read, write, ◌>>=◌, bind-ret}
use temp.Rwn.{readn, writen}
use temp.Rwn.Loops.{
  SameWritten, WriteStalled, ReadStalled, length-eq-zero, got_nothing, ReadBounded, WriteBounded,
  Wrote, Stored, writen_lem, readn_lem,
}

-- `w` is the end of a pipe to which one writes, and `r` that from which one reads: the bytes come out
-- in the order in which they went in, a write of a text takes at least one byte of it, and a read gives
-- at least one byte if there is one.
pub record Pipe (e : Env) (r w : ℕ) : Type 0 where
  pub reads : ReadBounded e r
  pub writes : WriteBounded e w
  pub in_order : (h : List Call) → (y : List ℕ) × (got e r h ++ y ≡ written e w h)
  pub takes :
      (text : List ℕ) (h : List Call)
      → 0 < length text
      → ((e (write w text ∷ h)).ret ≢ none) × ((e (write w text ∷ h)).ret ≢ some 0)
  pub gives :
      (n : ℕ) (h : List Call) (y : List ℕ)
      → 0 < n
      → 0 < length y
      → got e r h ++ y ≡ written e w h
      → ((e (read r n ∷ h)).ret ≢ none) × ((e (read r n ∷ h)).ret ≢ some 0)

pub append_cancel : (xs ys zs : List ℕ) → xs ++ ys ≡ xs ++ zs → ys ≡ zs
append_cancel [] ys zs h = h
append_cancel (x ∷ xs) ys zs h = append_cancel xs ys zs (cc)

module _ (e : Env) (r w : ℕ) (pipe : Pipe e r w) where
  no_write_stalls : (h' : List Call) → WriteStalled e w h' → ⊥
  no_write_stalls h' (text, p, (t, last, inl y)) =
      (pipe.takes text t p).0 (ap (λ s. (e s).ret) (sym last) ∙ y)
  no_write_stalls h' (text, p, (t, last, inr y)) =
      (pipe.takes text t p).1 (ap (λ s. (e s).ret) (sym last) ∙ y)

  -- A read that gives nothing finds the pipe empty.
  empty_at :
      (n : ℕ) (t : List Call) (y : List ℕ)
      → 0 < n
      → got e r (read r n ∷ t) ++ y ≡ written e w (read r n ∷ t)
      → (((e (read r n ∷ t)).ret ≡ none) ⊎ ((e (read r n ∷ t)).ret ≡ some 0))
      → y ≡ []
  empty_at n t [] p order why = refl
  empty_at n t (b ∷ y) p order (inl x) = absurd (
      (pipe.gives n t (b ∷ y) p (omega arith) (
          ap (λ g. g ++ (b ∷ y)) (sym (got_nothing e r 0 n t x refl))
          ∙ order
          ∙ written_read e w r n t)).0
        x)
  empty_at n t (b ∷ y) p order (inr x) = absurd (
      (pipe.gives n t (b ∷ y) p (omega arith) (
          ap (λ g. g ++ (b ∷ y)) (sym (got_nothing e r 0 n t x refl))
          ∙ order
          ∙ written_read e w r n t)).1
        x)

  stalled_empty :
      (h' : List Call) (y : List ℕ) → got e r h' ++ y ≡ written e w h' → ReadStalled e r h' → y ≡ []
  stalled_empty h' y order (n, p, (t, last, why)) =
      empty_at n t y p (rw last at order) (rw last at why)

  AllWritten : List ℕ → List Call → Type 0
  AllWritten text h =
      (h' : List Call) × (writen w text (length text) e h ≡ ret (some (length text)) h')
      × (written e w h' ≡ written e w h ++ text)
      × (got e r h' ≡ got e r h)

  all_written : (text : List ℕ) (h : List Call) → AllWritten text h
  unfolding AllWritten
  all_written text h =
      let (o, h', run, done) = writen_lem w text e h pipe.writes in finish o h' run done
    where
      finish :
          (o : Option ℕ) (h' : List Call)
          → writen w text (length text) e h ≡ ret o h'
          → Wrote e w (length text) 0 text h o h'
          → AllWritten text h
      finish none h' run (z, asked, same, stalled, keep) = absurd (no_write_stalls h' stalled)
      finish (some m) h' run (low, high, wrote, inr stalled, keep) =
          absurd (no_write_stalls h' stalled)
      finish (some m) h' run (low, high, wrote, inl full, keep) =
          let whole : take (m - 0) text ≡ text = take_all (m - 0) text (omega arith) in
          (
            h',
            run ∙ ap (λ k. ret (some k) h') full,
            wrote ∙ ap (λ t. written e w h ++ t) whole,
            keep r,
          )

  AllRead : List ℕ → List Call → Type 0
  AllRead text h =
      (h' : List Call) × (readn r (length text) e h ≡ ret (some (length text), text) h')

  all_read : (text : List ℕ) (h : List Call) → got e r h ++ text ≡ written e w h → AllRead text h
  unfolding AllRead
  all_read text h order =
      let (o, h', run, done) = readn_lem r (length text) e h pipe.reads in finish o h' run done
    where
      -- What is still in the pipe at the end follows what was read.
      rest :
          (h' : List Call) (x : List ℕ)
          → got e r h' ≡ got e r h ++ x
          → SameWritten e h h'
          → (y : List ℕ) × (got e r h' ++ y ≡ written e w h') × (x ++ y ≡ text)
      rest h' x more keep =
          let (y, order') = pipe.in_order h' in
          (
            y,
            order',
            append_cancel (got e r h) (x ++ y) text (
                sym (append_assoc (got e r h) x y)
                ∙ ap (λ g. g ++ y) (sym more)
                ∙ order'
                ∙ keep w
                ∙ sym order),
          )

      nothing_left :
          (h' : List Call) (x y : List ℕ) (m : ℕ)
          → length x ≡ m
          → x ++ y ≡ text
          → got e r h' ++ y ≡ written e w h'
          → ((m ≡ length text) ⊎ ReadStalled e r h')
          → y ≡ []
      nothing_left h' x y m size parts order' (inl full) =
          length-eq-zero y (omega (arith, ap length parts, length-append x y))
      nothing_left h' x y m size parts order' (inr stalled) = stalled_empty h' y order' stalled

      finish :
          (o : Option ℕ × List ℕ) (h' : List Call)
          → readn r (length text) e h ≡ ret o h'
          → Stored e r (length text) [] h o h'
          → AllRead text h
      finish (none, stored) h' run (z, asked, nothing, same, stalled, keep) =
          let (y, order', parts) = rest h' [] (same ∙ sym (append-nil (got e r h))) keep in
          absurd (omega (arith, ap length (sym (stalled_empty h' y order' stalled) ∙ parts)))
      finish (some m, stored) h' run (high, len, (x, same, more), end, keep) =
          let (y, order', parts) = rest h' x more keep in
          let size : length x ≡ m = omega (arith, ap length same, len) in
          let none_left : y ≡ [] = nothing_left h' x y m size parts order' end in
          let whole : stored ≡ text =
            same ∙ sym (append-nil x) ∙ ap (λ t. x ++ t) (sym none_left) ∙ parts in
          (h', run ∙ ap₂ (λ k s. ret (some k, s) h') (sym len ∙ ap length whole) whole)

-- What is written into an empty pipe in one call of `writen` is read out of it in one call of `readn`,
-- however few bytes each `write` and `read` transfers.
pub writen_then_readn :
    (e : Env) (r w : ℕ) (text : List ℕ) (h : List Call)
    → Pipe e r w
    → got e r h ≡ written e w h
    → (h' : List Call) × ((writen w text (length text) >>= λ _. readn r (length text)) e h
        ≡ ret (some (length text), text) h')
unfolding AllWritten AllRead
writen_then_readn e r w text h pipe empty =
    let (h₁, sent, there, same) = all_written e r w pipe text h in
    let (h', back) = all_read e r w pipe text h₁ (ap (λ g. g ++ text) (same ∙ empty) ∙ sym there) in
    (
      h',
      bind-ret (writen w text (length text)) (λ _. readn r (length text)) e h h₁
            (some (length text)) sent
          ∙ back,
    )
