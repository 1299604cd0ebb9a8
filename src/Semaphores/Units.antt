-- ===== src/Semaphores/Units.antt =====
-- Where the units of the semaphore are, in every state that a family of children can reach.
use native.Mathlib.Decide.{ℕ_discrete}
use temp.Base.{
  ℕ, zero, suc, ◌+◌, ◌≡◌, ◌≢◌, ◌≤◌, ◌<◌, inl, inr, refl, sym, ◌∙◌, ap, Bool, true, false, arith,
}
use temp.Mutexes.{put, put_cases, put_self}
use temp.Semaphores.{
  Child, absent, alive, posted, quit, Family, SemStep, takes, makes, posts, quits, SemReach,
  sem_begin, sem_next, quitting_thread, no_process,
}

-- A unit that a child has, and one that is lost with it.
abbrev pub alive_unit : Child → ℕ
alive_unit alive = 1
alive_unit _ = 0

abbrev pub lost_unit : Child → ℕ
lost_unit quit = 1
lost_unit _ = 0

abbrev pub held_unit : Bool → ℕ
held_unit true = 1
held_unit false = 0

-- The children among the first `n` that run.
abbrev pub running_children : (ℕ → Child) → ℕ → ℕ
running_children f zero = 0
running_children f (suc n) = alive_unit (f n) + running_children f n

running-put_out :
    (f : ℕ → Child) (j n : ℕ) (c : Child)
    → n ≤ j
    → running_children (put f j c) n ≡ running_children f n
running-put_out f j zero c out = refl
running-put_out f j (suc n) c out = elim (put_cases f j n c) [
  | inl (e, q) ↦ absurd (omega (arith, out, e))
  | inr (e, q) ↦ omega (arith, ap alive_unit q, running-put_out f j n c (omega (arith, out)))
]

running-put :
    (f : ℕ → Child) (j n : ℕ) (c : Child)
    → j < n
    → running_children (put f j c) n + alive_unit (f j) ≡ running_children f n + alive_unit c
running-put f j zero c lt = absurd (omega (arith, lt))
running-put f j (suc n) c lt = elim (put_cases f j n c) [
  | inl (e, q) ↦ omega (
    arith,
    ap alive_unit q,
    ap (λ m. alive_unit (f m)) e,
    running-put_out f j n c (omega (arith, e)),
  )
  | inr (e, q) ↦ omega (arith, ap alive_unit q, running-put f j n c (omega (arith, lt, e)))
]

alive_at_most : (f : ℕ → Child) (j n : ℕ) → j < n → alive_unit (f j) ≤ running_children f n
alive_at_most f j zero lt = absurd (omega (arith, lt))
alive_at_most f j (suc n) lt = elim (ℕ_discrete j n) [
  | yes e ↦ omega (arith, ap (λ m. alive_unit (f m)) e)
  | no e ↦ omega (arith, alive_at_most f j n (omega (arith, lt, e)))
]

none_running : (f : ℕ → Child) (n : ℕ) → ((j : ℕ) → f j ≢ alive) → running_children f n ≡ 0
none_running f zero none = refl
none_running f (suc n) none = omega (arith, still (f n) (none n), none_running f n none)
  where
    still : (c : Child) → c ≢ alive → alive_unit c ≡ 0
    still absent q = refl
    still alive q = absurd (q refl)
    still posted q = refl
    still quit q = refl

-- Every unit is with the semaphore, the parent, a child that runs, or lost; no child from `i` on is made yet;
-- and the child `idx`, once made, has its unit or has lost it.
record Accounted (idx n_count : ℕ) (s : Family) : Type 0 where
  units :
      s.sem_value + held_unit s.holds + running_children s.child 30 + lost_unit (s.child idx)
      ≡ n_count
  unmade : (j : ℕ) → s.i ≤ j → s.child j ≡ absent
  kept : idx < s.i → alive_unit (s.child idx) + lost_unit (s.child idx) ≡ 1
  inside : s.i ≤ 30

put_kept :
    (g : Child → ℕ) (f : ℕ → Child) (i j : ℕ) (c : Child)
    → (i ≡ j → g c ≡ g (f j))
    → g (put f i c j) ≡ g (f j)
put_kept g f i j c same = elim (put_cases f i j c) [
  | inl (e, q) ↦ ap g q ∙ same e
  | inr (e, q) ↦ ap g q
]

put_unmade : (f : ℕ → Child) (i j : ℕ) (c : Child) → f j ≡ absent → i ≢ j → put f i c j ≡ absent
put_unmade f i j c now ne = elim (put_cases f i j c) [
  | inl (e, q) ↦ absurd (ne e)
  | inr (e, q) ↦ q ∙ now
]

not_both : {c : Child} → c ≡ alive → c ≡ absent → ⊥
not_both a b = cc

step-Accounted :
    (idx n_count : ℕ) {s t : Family}
    → SemStep idx s t
    → Accounted idx n_count s
    → Accounted idx n_count t
step-Accounted idx n {s} (takes v low free some_left) a = record {
  units = omega (arith, a.units, some_left, ap held_unit free);
  unmade = a.unmade;
  kept = a.kept;
  inside = a.inside;
}
step-Accounted idx n {s} (makes low has) a =
    let fresh : s.child s.i ≡ absent = a.unmade s.i (omega arith) in
    record {
      units = omega (
        arith,
        a.units,
        ap held_unit has,
        ap alive_unit fresh,
        running-put s.child s.i 30 alive low,
        put_kept lost_unit s.child s.i idx alive
            (λ e. sym (ap lost_unit (ap s.child (sym e) ∙ fresh))),
      );
      unmade = λ j le.
          put_unmade s.child s.i j alive (a.unmade j (omega (arith, le)))
            (λ e. omega (arith, le, e));
      kept = λ lt. elim (put_cases s.child s.i idx alive) [
        | inl (e, q) ↦ omega (arith, ap alive_unit q, ap lost_unit q)
        | inr (e, q) ↦ omega (arith, ap alive_unit q, ap lost_unit q, a.kept (omega (arith, lt, e)))
      ];
      inside = omega (arith, low);
    }
step-Accounted idx n {s} (posts j low ne runs) a = record {
  units = omega (
    arith,
    a.units,
    ap alive_unit runs,
    running-put s.child j 30 posted low,
    put_kept lost_unit s.child j idx posted (λ e. absurd (ne e)),
  );
  unmade = λ k le.
      put_unmade s.child j k posted (a.unmade k le)
        (λ e. not_both runs (ap s.child e ∙ a.unmade k le));
  kept = λ lt. omega (
    arith,
    a.kept lt,
    put_kept alive_unit s.child j idx posted (λ e. absurd (ne e)),
    put_kept lost_unit s.child j idx posted (λ e. absurd (ne e)),
  );
  inside = a.inside;
}
step-Accounted idx n {s} (quits low runs) a =
    let self : put s.child idx quit idx ≡ quit = put_self s.child idx quit in
    record {
      units = omega (
        arith,
        a.units,
        ap alive_unit runs,
        ap lost_unit runs,
        ap lost_unit self,
        running-put s.child idx 30 quit low,
      );
      unmade = λ k le.
          put_unmade s.child idx k quit (a.unmade k le)
            (λ e. not_both runs (ap s.child e ∙ a.unmade k le));
      kept = λ lt. omega (arith, ap alive_unit self, ap lost_unit self);
      inside = a.inside;
    }

reach-Accounted : (idx n_count : ℕ) {s : Family} → SemReach idx n_count s → Accounted idx n_count s
reach-Accounted idx n sem_begin = record {
  units = omega (arith, none_running (λ _. absent) 30 (λ j e. cc));
  unmade = λ j le. refl;
  kept = λ lt. absurd (omega (arith, lt));
  inside = omega arith;
}
reach-Accounted idx n (sem_next r st) = step-Accounted idx n st (reach-Accounted idx n r)

-- The processes of posix_named_sem_cnt.c, with a semaphore of any number of units, in every state that they can
-- reach: never more children run at once than the semaphore had units, and when the parent holds no
-- unit and no child runs, the semaphore has all its units again.
named_sem_lem :
    (n_count : ℕ) {s : Family}
    → SemReach no_process n_count s
    → (running_children s.child 30 ≤ n_count)
      × (s.holds ≡ false → ((j : ℕ) → s.child j ≢ alive) → s.sem_value ≡ n_count)
named_sem_lem n {s} r =
    let a = reach-Accounted no_process n r in
    let nobody : s.child 30 ≡ absent = a.unmade 30 a.inside in
    (
      omega (arith, a.units),
      λ free over.
          omega
            (arith, a.units, ap held_unit free, ap lost_unit nobody, none_running s.child 30 over),
    )

-- With one unit, the child that quits takes it with it.
one_unit : {s : Family} → SemReach quitting_thread 1 s → s.i ≤ 12
one_unit sem_begin = omega arith
one_unit (sem_next r (takes v low free some_left)) = one_unit r
one_unit (sem_next r (posts j low ne runs)) = one_unit r
one_unit (sem_next r (quits low runs)) = one_unit r
one_unit (sem_next {s} r (makes low has)) =
    let a = reach-Accounted quitting_thread 1 r in
    elim (ℕ_discrete s.i 12) [
      | no e ↦ omega (arith, one_unit r, e)
      | yes e ↦ absurd (
          omega (
            arith,
            a.units,
            ap held_unit has,
            alive_at_most s.child 11 30 (omega arith),
            a.kept (omega (arith, e)),
          ))
    ]

-- The threads of posix_nameless_sem.c, with a semaphore of any number of units, in every state that they can
-- reach: never more threads run at once than the semaphore had units; when the thread with index 11
-- has been made, and the parent holds no unit and no thread runs, the semaphore has one unit less than at
-- the start; and with a single unit the parent never makes more than twelve of its thirty threads.
pub nameless_sem_lem :
    (n_count : ℕ) {s : Family}
    → SemReach quitting_thread n_count s
    → (running_children s.child 30 ≤ n_count)
      × (11 < s.i → s.holds ≡ false → ((j : ℕ) → s.child j ≢ alive) → s.sem_value + 1 ≡ n_count)
      × (n_count ≡ 1 → s.i ≤ 12)
nameless_sem_lem n {s} r =
    let a = reach-Accounted quitting_thread n r in
    (
      omega (arith, a.units),
      λ made free over. omega (
        arith,
        a.units,
        ap held_unit free,
        a.kept made,
        alive_at_most s.child 11 30 (omega arith),
        none_running s.child 30 over,
      ),
      λ one. one_unit (rw one at r),
    )
