-- ===== src/Daemon/Descriptors.antt =====
-- Which descriptors `daemonize` of APUE/daemonize.c closes.
use temp.Base.{
  ℕ, zero, suc, ◌+◌, ◌≡◌, ◌⊎◌, inl, inr, refl, Bool, true, false, Option, none, some, List, [], ◌∷◌,
  ltb, if◌then◌else◌, leb, ◌&&◌, ap, ◌∙◌, arith, Option-cases, Bool-cases, hit,
}
use temp.Base.History.{closes}
use temp.Base.Sys.{
  Call, Env, Ends, Ends-bind, Ends-map, bind-ret, ◌>>=◌, ret, umask, getrlimit, fork, setsid,
  sigaction, chdir, close, open_file, dup, openlog,
}
use temp.Daemon.{
  close_from, fork_on, reopen, new_session, let_go, daemonize, sighup, ignore, is, null_path,
}

abbrev pub within : ℕ → ℕ → ℕ → ℕ
within f i n = if leb i f && ltb f (i + n) then 1 else 0

within-suc : (f i n : ℕ) → within f i (suc n) ≡ hit f i + within f (i + 1) n
within-suc f i n = ground arith

within_zero : (f n : ℕ) → within f 0 n ≡ (if ltb f n then 1 else 0)
within_zero f n = ground arith

close_from_lem :
    (n i : ℕ) (e : Env) (h : List Call)
    → (h' : List Call) × (close_from i n e h ≡ ret tt h')
      × ((f : ℕ) → closes f h' ≡ closes f h + within f i n)
unfolding close_from closes
close_from_lem zero i e h = (h, refl, λ f. ground arith)
close_from_lem (suc n) i e h =
    let (h', run, count) = close_from_lem n (i + 1) e (close i ∷ h) in
    (h', run, λ f. omega (arith, count f, within-suc f i n))

-- "/dev/null"
abbrev pub dev_null : List ℕ
dev_null = 47 ∷ 100 ∷ 101 ∷ 118 ∷ 47 ∷ 110 ∷ 117 ∷ 108 ∷ 108 ∷ []

-- `/dev/null` stands behind the standard descriptors, and these are 0, 1 and 2.
pub record Standard (e : Env) (h' : List Call) : Type 0 where
  pub before : List Call
  pub calls : h' ≡ openlog ∷ dup 0 ∷ dup 0 ∷ open_file dev_null ∷ before
  pub input : (e (open_file dev_null ∷ before)).ret ≡ some 0
  pub output : (e (dup 0 ∷ open_file dev_null ∷ before)).ret ≡ some 1
  pub errors : (e (dup 0 ∷ dup 0 ∷ open_file dev_null ∷ before)).ret ≡ some 2

-- `/dev/null` was asked for, but not all of the standard descriptors were had.
abbrev pub Unexpected : Env → List Call → Type 0
Unexpected e h' =
    (t : List Call) × (h' ≡ openlog ∷ dup 0 ∷ dup 0 ∷ open_file dev_null ∷ t)
    × (¬ (
        ((e (open_file dev_null ∷ t)).ret ≡ some 0)
        × ((e (dup 0 ∷ open_file dev_null ∷ t)).ret ≡ some 1)
        × ((e (dup 0 ∷ dup 0 ∷ open_file dev_null ∷ t)).ret ≡ some 2)))

-- An end with 1 after a failure, or with 0 in a parent just after a fork.
abbrev pub Ended : Env → ℕ → List Call → Type 0
Ended e c h' =
    ((c ≡ 1) × (((e h').ret ≡ none) ⊎ Unexpected e h'))
    ⊎ ((c ≡ 0) × ((t : List Call) × (h' ≡ fork ∷ t)) × ((pid : ℕ) × ((e h').ret ≡ some (suc pid))))

is_some : (o : Option ℕ) (n : ℕ) → is o n ≡ true → o ≡ some n
is_some none n h = cc
is_some (some fd) n h = ap some (ground arith)

module _ (e : Env) where
  fork_on_lem : (h : List Call) → Ends (λ _ h'. h' ≡ fork ∷ h) (Ended e) (fork_on e h)
  unfolding fork_on
  fork_on_lem h = elim (Option-cases (e (fork ∷ h)).ret) [
    | inl x ↦ rw x (inl (refl, inl x))
    | inr (zero, x) ↦ rw x refl
    | inr (suc pid, x) ↦ rw x (inr (refl, (h, refl), (pid, x)))
  ]

  reopen_lem :
      (h : List Call)
      → Ends (λ _ h'. Standard e h' × ((f : ℕ) → closes f h' ≡ closes f h)) (Ended e) (reopen e h)
  unfolding reopen closes
  reopen_lem h =
      let h₀ = open_file null_path ∷ h in
      let h₁ = dup 0 ∷ h₀ in
      let h₂ = dup 0 ∷ h₁ in
      elim (Bool-cases (is (e h₀).ret 0 && (is (e h₁).ret 1 && is (e h₂).ret 2))) [
        | inr y ↦ rw y (inl (refl, inr (h, refl, λ w. lost y (had w.0 w.1 w.2))))
        | inl y ↦
            let (first, others) = both (is (e h₀).ret 0) (is (e h₁).ret 1 && is (e h₂).ret 2) y in
            let (second, third) = both (is (e h₁).ret 1) (is (e h₂).ret 2) others in
            rw y (
              record {
                before = h;
                calls = refl;
                input = is_some (e h₀).ret 0 first;
                output = is_some (e h₁).ret 1 second;
                errors = is_some (e h₂).ret 2 third;
              },
              λ f. refl,
            )
      ]
    where
      had :
          {a b c : Option ℕ}
          → a ≡ some 0
          → b ≡ some 1
          → c ≡ some 2
          → (is a 0 && (is b 1 && is c 2)) ≡ true
      had p q r = rw (p, q, r) refl

      lost : {a : Bool} → a ≡ false → a ≡ true → ⊥
      lost p q = cc

      both : (a b : Bool) → (a && b) ≡ true → (a ≡ true) × (b ≡ true)
      both a b p = ground arith

  fork_on-closes :
      (h : List Call) → Ends (λ _ h'. (f : ℕ) → closes f h' ≡ closes f h) (Ended e) (fork_on e h)
  unfolding closes
  fork_on-closes h = Ends-map (fork_on e h) (λ _ t at f. rw at refl) (λ _ _ x. x) (fork_on_lem h)

  new_session-closes :
      (h : List Call)
      → Ends (λ _ h'. (f : ℕ) → closes f h' ≡ closes f h) (Ended e) (new_session e h)
  unfolding new_session closes
  new_session-closes h =
      let h₁ = sigaction sighup ignore ∷ setsid ∷ h in
      elim (Option-cases (e h₁).ret) [
        | inl x ↦ rw x (inl (refl, inl x))
        | inr (v, x) ↦ rw x (fork_on-closes h₁)
      ]

  let_go-closes :
      (h : List Call)
      → Ends
          (λ _ h'. Standard e h' × ((f : ℕ) → closes f h' ≡ closes f h + within f 0 1024))
          (Ended e)
          (let_go e h)
  unfolding let_go closes
  let_go-closes h =
      let (h', run, count) = close_from_lem 1024 0 e (chdir ∷ h) in
      elim (Option-cases (e (chdir ∷ h)).ret) [
        | inl x ↦ rw x (inl (refl, inl x))
        | inr (v, x) ↦
            rw (x, bind-ret (close_from 0 1024) (λ _. reopen) e (chdir ∷ h) h' tt run)
              (Ends-map (reopen e h') (λ _ t (standard, same). (standard, λ f. same f ∙ count f))
                (λ _ _ y. y) (reopen_lem h'))
      ]

-- When `daemonize` returns, the standard descriptors are on /dev/null, and it has closed each of the
-- descriptors from 0 to 1023 once and no other, whatever limit `getrlimit` gave. Else it has ended the
-- process: with 1 just after a call that failed, or when opening /dev/null and duplicating it did not give
-- 0, 1 and 2, or with 0 in the parent of a fork.
pub daemonize_lem :
    (e : Env) (h : List Call)
    → Ends
        (λ _ h'.
          Standard e h' × ((f : ℕ) → closes f h' ≡ closes f h + (if ltb f 1024 then 1 else 0)))
        (Ended e)
        (daemonize e h)
unfolding daemonize closes
daemonize_lem e h =
    let h₁ = getrlimit ∷ umask ∷ h in
    elim (Option-cases (e h₁).ret) [
      | inl x ↦ rw x (inl (refl, inl x))
      | inr (v, x) ↦ rw x (
          Ends-bind (λ _ h'. (f : ℕ) → closes f h' ≡ closes f h₁) (Daemon h) (Ended e) fork_on
            (λ _. new_session >>= λ _. let_go) e h₁ (fork_on-closes e h₁)
            (λ _ t first.
              Ends-bind (λ _ h'. (f : ℕ) → closes f h' ≡ closes f t) (Daemon h) (Ended e)
                new_session (λ _. let_go) e t (new_session-closes e t)
                (λ _ u second.
                  Ends-map (let_go e u)
                    (λ _ w (standard, count). (
                      standard,
                      λ f. omega (arith, count f, second f, first f, within_zero f 1024),
                    ))
                    (λ _ _ y. y) (let_go-closes e u))))
    ]
  where
    Daemon : List Call → Unit {0} → List Call → Type 0
    Daemon h₀ _ h' =
        Standard e h' × ((f : ℕ) → closes f h' ≡ closes f h₀ + (if ltb f 1024 then 1 else 0))
