-- ===== src/Uptime/Retry.antt =====
-- How often `connect_retry` of APUE/socket.c tries, how long it sleeps, and what it leaves open.
use temp.Base.{
  ℕ, zero, suc, ◌+◌, ◌*◌, ◌-◌, ◌≡◌, ◌≤◌, ◌<◌, inl, inr, refl, ap, false, Option, none, some, List,
  [], ◌∷◌, leb, hit, arith, Option-cases, Bool-cases,
}
use temp.Base.History.{closes}
use temp.Base.Sys.{Call, Env, Out, ret, socket, connect, close, sleep}
use temp.Uptime.{connect_loop, connect_retry}

-- The number of a result, if it has one.
abbrev pub is_hit : ℕ → Option ℕ → ℕ
is_hit f none = 0
is_hit f (some g) = hit f g

-- How often a descriptor was made by `socket`, how often that was tried, and the seconds slept.
unfoldable pub opened : Env → ℕ → List Call → ℕ
opened e f [] = 0
opened e f (socket ∷ h) = is_hit f (e (socket ∷ h)).ret + opened e f h
opened e f (_ ∷ h) = opened e f h

unfoldable pub tries : List Call → ℕ
tries [] = 0
tries (socket ∷ h) = suc (tries h)
tries (_ ∷ h) = tries h

unfoldable pub slept : List Call → ℕ
slept [] = 0
slept (sleep n ∷ h) = n + slept h
slept (_ ∷ h) = slept h

-- The result is a connected socket or none; every other socket made since `h` is closed; and there were at
-- most `k` tries with at most `s` seconds between them.
abbrev pub Connects : Env → List Call → ℕ → ℕ → Out (Option ℕ) → Type 0
Connects e h k s (ret o h') =
    ((f : ℕ) → closes f h' + is_hit f o + opened e f h ≡ opened e f h' + closes f h)
    × (tries h' ≤ tries h + k)
    × (slept h' ≤ slept h + s)
    × ((fd : ℕ)
        → o ≡ some fd
        → (t : List Call) × (m : ℕ) × (h' ≡ connect fd ∷ t) × ((e h').ret ≡ some m))
Connects e h k s _ = ⊥

-- So many passes take `numsec` past the limit.
abbrev Enough : ℕ → ℕ → Type 0
Enough zero numsec = 128 < numsec
Enough (suc k) numsec = Enough k (numsec * 2)

none_made : {A : Type 0} {fd : ℕ} → none ≡ some fd → A
none_made q = absurd (cc)

some_made : {A : Type 0} {a b : A} → some a ≡ some b → a ≡ b
some_made q = cc

-- A try that fails, and what comes behind it.
retry-Connects :
    (e : Env) (h h' : List Call) (k s s' : ℕ) (o : Out (Option ℕ))
    → ((f : ℕ) → closes f h' + opened e f h ≡ opened e f h' + closes f h)
    → tries h' ≡ suc (tries h)
    → slept h' + s' ≤ slept h + s
    → Connects e h' k s' o
    → Connects e h (suc k) s o
retry-Connects e h h' k s s' (ret o t) kept more time (bal, tried, slow, made) = (
  (λ f. omega (arith, kept f, bal f)),
  omega (arith, more, tried),
  omega (arith, time, slow),
  made,
)
retry-Connects e h h' k s s' _ kept more time c = c

connect_loop-Connects :
    (e : Env) (k numsec : ℕ) (h : List Call)
    → 1 ≤ numsec
    → Enough k numsec
    → Connects e h k (128 - numsec) (connect_loop k numsec e h)
unfolding connect_loop opened tries slept closes
connect_loop-Connects e zero numsec h low enough =
    let over : leb numsec 128 ≡ false = ground arith in
    rw over ((λ f. omega arith), omega arith, omega arith, λ fd q. none_made q)
connect_loop-Connects e (suc k) numsec h low enough = elim (Bool-cases (leb numsec 128)) [
  | inr over ↦ rw over ((λ f. omega arith), omega arith, omega arith, λ fd q. none_made q)
  | inl go ↦ elim (Option-cases (e (socket ∷ h)).ret) [
    | inl x ↦
        rw (go, x)
          ((λ f. omega (arith, ap (is_hit f) x)), omega arith, omega arith, λ fd q. none_made q)
    | inr (fd, x) ↦ elim (Option-cases (e (connect fd ∷ socket ∷ h)).ret) [
      | inr (m, y) ↦
          rw (go, x, y)
            (
              (λ f. omega (arith, ap (is_hit f) x)),
              omega arith,
              omega arith,
              λ fd' q. (socket ∷ h, m, ap (λ g. connect g ∷ socket ∷ h) (some_made q), y),
            )
      | inl y ↦ elim (Bool-cases (leb numsec 64)) [
        | inl short ↦
            let le : numsec ≤ 64 = ground arith in
            let h' = sleep numsec ∷ close fd ∷ connect fd ∷ socket ∷ h in
            rw (go, x, y, short)
              (retry-Connects e h h' k (128 - numsec) (128 - numsec * 2)
                (connect_loop k (numsec * 2) e h') (λ f. omega (arith, ap (is_hit f) x)) refl
                (omega arith) (connect_loop-Connects e k (numsec * 2) h' (omega arith) enough))
        | inr long ↦
            let h' = close fd ∷ connect fd ∷ socket ∷ h in
            rw (go, x, y, long)
              (retry-Connects e h h' k (128 - numsec) (128 - numsec * 2)
                (connect_loop k (numsec * 2) e h') (λ f. omega (arith, ap (is_hit f) x)) refl
                (omega arith) (connect_loop-Connects e k (numsec * 2) h' (omega arith) enough))
      ]
    ]
  ]
]

-- `connect_retry`, whatever the calls return: it comes to its end, after at most eight tries and at most
-- 127 seconds of sleep between them; its result, if it has one, is the socket that the last call connected;
-- and every other socket that it made is closed.
pub connect_retry-Connects : (e : Env) (h : List Call) → Connects e h 8 127 (connect_retry e h)
unfolding connect_retry
connect_retry-Connects e h = connect_loop-Connects e 8 1 h (omega arith) (omega arith)
