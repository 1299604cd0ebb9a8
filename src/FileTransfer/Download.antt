-- ===== src/FileTransfer/Download.antt =====
-- `recv_file` of sp/sock/serv/serv.c: its results, and which descriptors it closes on each path.
use temp.Base.{
  ℕ, zero, suc, ◌+◌, ◌-◌, ◌≡◌, ◌≢◌, ◌⊎◌, refl, ap, ◌∙◌, Option, none, some, List, [], ◌∷◌, take,
  inl, inr, Option-cases, hit, arith,
}
use temp.Base.History.{closes}
use temp.Base.Sys.{
  Call, Errno, Env, Ends, Ends-bind, Ends-map, M, pure, sys, ◌>>◌, close, recv, send, write,
  open_file,
}
use temp.FileTransfer.{minus_one, recv_name, write_chunk, recv_loop, store_file, recv_file}

abbrev if_got : Option ℕ → ℕ → ℕ
if_got none f = 0
if_got (some g) f = hit f g

-- How often the opening of a file gave a descriptor.
unfoldable pub opened : Env → ℕ → List Call → ℕ
opened e f [] = 0
opened e f (open_file name ∷ h) = if_got (e (open_file name ∷ h)).ret f + opened e f h
opened e f (_ ∷ h) = opened e f h

-- A `recv` of `n` bytes that failed, and not because a signal came.
abbrev pub Failed : Env → ℕ → ℕ → List Call → Type 0
Failed e cfd n t = ((e (recv cfd n ∷ t)).ret ≡ none) × ((e (recv cfd n ∷ t)).errno ≢ Errno.eintr)

-- How `recv_file` comes to its end once it has a name: the file is complete, a `recv` of it failed, or the
-- file of that name could not be created.
pub data Ending (e : Env) (cfd : ℕ) : ℕ → List Call → Type 0 where
  complete :
      (fd : ℕ) (t : List Call)
      → (e (recv cfd 8192 ∷ t)).ret ≡ some 0
      → Ending e cfd 0 (close cfd ∷ close fd ∷ recv cfd 8192 ∷ t)
  broken :
      (fd : ℕ) (t : List Call)
      → Failed e cfd 8192 t
      → Ending e cfd minus_one (close fd ∷ close cfd ∷ recv cfd 8192 ∷ t)
  refused :
      (k : ℕ) (name : List ℕ) (t : List Call)
      → (e (recv cfd 4095 ∷ t)).ret ≡ some k
      → name ≡ take k (e (recv cfd 4095 ∷ t)).bytes
      → (e (open_file name ∷ recv cfd 4095 ∷ t)).ret ≡ none
      → Ending e cfd minus_one
          (close cfd ∷ send cfd (255 ∷ 255 ∷ 255 ∷ 255 ∷ []) ∷ open_file name ∷ recv cfd 4095 ∷ t)

-- Every descriptor has been closed as often as a file was opened with it, and `cfd` once more.
abbrev pub HangsUp : Env → ℕ → List Call → List Call → Type 0
HangsUp e cfd h h' = (f : ℕ) → closes f h' + opened e f h ≡ opened e f h' + closes f h + hit f cfd

-- Nothing has been opened or closed.
abbrev pub Untouched : Env → List Call → List Call → Type 0
Untouched e h h' = (f : ℕ) → (closes f h' ≡ closes f h) × (opened e f h' ≡ opened e f h)

-- What `recv_file` promises: one of these ends, or a failure to receive the name.
abbrev pub Stored : Env → ℕ → List Call → ℕ → List Call → Type 0
Stored e cfd h r h' = Ending e cfd r h' × HangsUp e cfd h h'

abbrev pub Nameless : Env → ℕ → List Call → ℕ → List Call → Type 0
Nameless e cfd h r h' =
    (r ≡ minus_one)
    × ((t : List Call) × (h' ≡ recv cfd 4095 ∷ t) × Failed e cfd 4095 t)
    × Untouched e h h'

-- Another `recv` for one that a signal has interrupted, and the end after one that failed else.
by_errno :
    {A : Type 0} (P : A → List Call → Type 0) (again fail : M A) (e : Env) (h : List Call)
    (k : Errno)
    → Ends P (λ _ _. ⊥) (again e h)
    → (k ≢ Errno.eintr → Ends P (λ _ _. ⊥) (fail e h))
    → Ends P (λ _ _. ⊥) (elim k as (λ _. M A) [ Errno.eintr ↦ again | _ ↦ fail ] e h)
by_errno P again fail e h Errno.eintr a b = a
by_errno P again fail e h Errno.eagain a b = b (λ q. cc)
by_errno P again fail e h Errno.eexist a b = b (λ q. cc)
by_errno P again fail e h Errno.einval a b = b (λ q. cc)
by_errno P again fail e h Errno.ebusy a b = b (λ q. cc)
by_errno P again fail e h Errno.enoent a b = b (λ q. cc)
by_errno P again fail e h Errno.other a b = b (λ q. cc)

write_chunk-Untouched :
    (n fd left : ℕ) (buf : List ℕ) (e : Env) (h : List Call)
    → Ends (λ _ h'. Untouched e h h') (λ _ _. ⊥) (write_chunk n fd buf left e h)
unfolding write_chunk closes opened
write_chunk-Untouched zero fd zero buf e h = λ f. (refl, refl)
write_chunk-Untouched (suc n) fd zero buf e h = λ f. (refl, refl)
write_chunk-Untouched zero fd (suc left) buf e h = tt
write_chunk-Untouched (suc n) fd (suc left) buf e h =
    let h' = write fd (take (suc left) buf) ∷ h in
    elim (Option-cases (e h').ret) [
      | inl x ↦ rw x (write_chunk-Untouched n fd (suc left) buf e h')
      | inr (k, x) ↦ rw x (write_chunk-Untouched n fd (suc left - k) buf e h')
    ]

-- The loop, with the file `fd`, closes it and the connection.
abbrev Both : Env → ℕ → ℕ → List Call → ℕ → List Call → Type 0
Both e cfd fd h r h' =
    Ending e cfd r h'
    × ((f : ℕ) → (closes f h' ≡ closes f h + hit f fd + hit f cfd) × (opened e f h' ≡ opened e f h))

recv_loop-Both :
    (n cfd fd : ℕ) (e : Env) (h : List Call)
    → Ends (Both e cfd fd h) (λ _ _. ⊥) (recv_loop n cfd fd e h)
unfolding recv_loop closes opened
recv_loop-Both zero cfd fd e h = tt
recv_loop-Both (suc n) cfd fd e h =
    let h' = recv cfd 8192 ∷ h in
    elim (Option-cases (e h').ret) [
      | inl x ↦ rw x (
          by_errno (Both e cfd fd h) (recv_loop n cfd fd)
            (sys (close cfd) >> (sys (close fd) >> pure minus_one)) e h' (e h').errno
            (recv_loop-Both n cfd fd e h') (λ ne. (broken fd h (x, ne), λ f. (omega arith, refl))))
      | inr (zero, x) ↦ rw x (complete fd h x, λ f. (omega arith, refl))
      | inr (suc k, x) ↦ rw x (
          Ends-bind (λ _ t. Untouched e h' t) (Both e cfd fd h) (λ _ _. ⊥)
            (write_chunk (suc n) fd (e h').bytes (suc k)) (λ _. recv_loop n cfd fd) e h'
            (write_chunk-Untouched (suc n) fd (suc k) (e h').bytes e h')
            (λ _ t u.
              Ends-map (recv_loop n cfd fd e t)
                (λ _ _ (end, b). (end, λ f. (omega (arith, (b f).0, (u f).0), (b f).1 ∙ (u f).1)))
                (λ _ _ y. y) (recv_loop-Both n cfd fd e t)))
    ]

-- A name that has just been received, or a failure just before.
abbrev Named : Env → ℕ → List Call → Option (List ℕ) → List Call → Type 0
Named e cfd h none h' = Nameless e cfd h minus_one h'
Named e cfd h (some name) h' =
    ((t : List Call) × (k : ℕ) × (h' ≡ recv cfd 4095 ∷ t)
      × ((e (recv cfd 4095 ∷ t)).ret ≡ some k)
      × (name ≡ take k (e (recv cfd 4095 ∷ t)).bytes))
    × Untouched e h h'

recv_name-Named :
    (n cfd : ℕ) (e : Env) (h : List Call) → Ends (Named e cfd h) (λ _ _. ⊥) (recv_name n cfd e h)
unfolding recv_name closes opened
recv_name-Named zero cfd e h = tt
recv_name-Named (suc n) cfd e h =
    let h' = recv cfd 4095 ∷ h in
    elim (Option-cases (e h').ret) [
      | inl x ↦ rw x (
          by_errno (Named e cfd h) (recv_name n cfd) (pure none) e h' (e h').errno
            (recv_name-Named n cfd e h') (λ ne. (refl, (h, refl, (x, ne)), λ f. (refl, refl))))
      | inr (k, x) ↦ rw x ((h, k, refl, x, refl), λ f. (refl, refl))
    ]

store_file-Stored :
    (n cfd k : ℕ) (filename : List ℕ) (e : Env) (t : List Call)
    → (e (recv cfd 4095 ∷ t)).ret ≡ some k
    → filename ≡ take k (e (recv cfd 4095 ∷ t)).bytes
    → Ends
        (Stored e cfd (recv cfd 4095 ∷ t))
        (λ _ _. ⊥)
        (store_file n cfd filename e (recv cfd 4095 ∷ t))
unfolding store_file closes opened
store_file-Stored n cfd k filename e t got name =
    let h = recv cfd 4095 ∷ t in
    let h' = open_file filename ∷ h in
    elim (Option-cases (e h').ret) [
      | inl x ↦ rw x (refused k filename t got name x, λ f. omega (arith, ap (λ o. if_got o f) x))
      | inr (fd, x) ↦ rw x (
          Ends-map (recv_loop n cfd fd e (send cfd (0 ∷ 0 ∷ 0 ∷ 0 ∷ []) ∷ h'))
            (λ _ _ (end, b). (end, λ f. omega (arith, (b f).0, (b f).1, ap (λ o. if_got o f) x)))
            (λ _ _ y. y) (recv_loop-Both n cfd fd e (send cfd (0 ∷ 0 ∷ 0 ∷ 0 ∷ []) ∷ h')))
    ]

-- `recv_file` never ends the process. When it returns 0, the last `recv` has found the end of the data;
-- when it returns -1, a `recv` of the file has just failed for another reason than a signal, or the file
-- whose name was received could not be created and the client has been sent -1, or no name could be
-- received. In the last case nothing has been opened or closed; in the others each descriptor has been
-- closed exactly as often as a file was opened with it, and the connection once more.
pub recv_file_lem :
    (n cfd : ℕ) (e : Env) (h : List Call)
    → Ends (λ r h'. Stored e cfd h r h' ⊎ Nameless e cfd h r h') (λ _ _. ⊥) (recv_file n cfd e h)
unfolding recv_file
recv_file_lem n cfd e h =
    Ends-bind (Named e cfd h) (λ r h'. Stored e cfd h r h' ⊎ Nameless e cfd h r h') (λ _ _. ⊥)
      (recv_name n cfd)
      (λ name. elim name [ none ↦ pure minus_one | some filename ↦ store_file n cfd filename ]) e h
      (recv_name-Named n cfd e h) store
  where
    store :
        (name : Option (List ℕ)) (t : List Call)
        → Named e cfd h name t
        → Ends
            (λ r h'. Stored e cfd h r h' ⊎ Nameless e cfd h r h')
            (λ _ _. ⊥)
            ((elim name as (λ _. M ℕ) [
              | none ↦ pure minus_one
              | some filename ↦ store_file n cfd filename
            ])
              e t)
    store none t last = inr last
    store (some filename) t ((u, k, here, got, name), same) = rw here (
        Ends-map (store_file n cfd filename e (recv cfd 4095 ∷ u))
          (λ _ h' (end, b). inl (end, λ f. omega (arith, b f, (moved f).0, (moved f).1)))
          (λ _ _ y. y) (store_file-Stored n cfd k filename e u got name))
      where
        moved : Untouched e h (recv cfd 4095 ∷ u)
        moved = rw here at same
