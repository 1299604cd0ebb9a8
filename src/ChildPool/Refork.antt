-- ===== src/ChildPool/Refork.antt =====
-- How many children the parent of ALSP/io_signalfd_chld.c makes for those that have changed.
use temp.Base.{
  ℕ, zero, suc, ◌+◌, ◌≡◌, ◌⊎◌, ◌≢◌, ◌≤◌, refl, sym, ◌∙◌, ap, Bool, true, false, ◌||◌, Option, none,
  some, List, [], ◌∷◌, ◌++◌, arith, Bool-cases, Option-cases, inl, inr, if◌then◌else◌, get_or,
  length, append-nil, append_assoc,
}
use temp.Base.Sys.{Call, Env, Out, ret, exit, running, fault, fork, waitid}
use temp.ChildPool.{is_gone, start_child, reap_loop}

-- The children that `waitid` reported, by the codes, in order.
abbrev pub named : ℕ → ℕ → List ℕ
named zero code = []
named (suc pid) code = code ∷ []

abbrev pub reported : Option ℕ → List ℕ → List ℕ
reported none bytes = []
reported (some _) bytes = named (get_or bytes 0 0) (get_or bytes 1 0)

unfoldable pub changes : Env → List Call → List ℕ
changes e [] = []
changes e (waitid ∷ h) = changes e h ++ reported (e (waitid ∷ h)).ret (e (waitid ∷ h)).bytes
changes e (_ ∷ h) = changes e h

-- The calls of `fork`.
unfoldable pub forks : List Call → ℕ
forks [] = 0
forks (fork ∷ h) = suc (forks h)
forks (_ ∷ h) = forks h

-- The changes from the first child on that is gone, and the number of those gone.
unfoldable pub from_first_gone : List ℕ → List ℕ
from_first_gone [] = []
from_first_gone (c ∷ cs) = if is_gone c then c ∷ cs else from_first_gone cs

unfoldable pub gone : List ℕ → ℕ
gone [] = 0
gone (c ∷ cs) = (if is_gone c then 1 else 0) + gone cs

-- What a round over `waitid` has to replace, when one child is known to be gone or not.
unfoldable due : Bool → List ℕ → ℕ
due true cs = length cs
due false cs = length (from_first_gone cs)

gone-le-length : (cs : List ℕ) → gone cs ≤ length cs
unfolding gone
gone-le-length [] = omega arith
gone-le-length (c ∷ cs) = ground (arith, gone-le-length cs)

gone-from_first_gone : (cs : List ℕ) → gone cs ≤ length (from_first_gone cs)
unfolding gone from_first_gone
gone-from_first_gone [] = omega arith
gone-from_first_gone (c ∷ cs) = ground (arith, gone-le-length cs, gone-from_first_gone cs)

due_cons :
    (b : Bool) (c : ℕ) (cs : List ℕ)
    → due b (c ∷ cs) ≡ (if is_gone c || b then 1 else 0) + due (is_gone c || b) cs
unfolding due from_first_gone
due_cons true c cs = elim (Bool-cases (is_gone c)) [
  | inl y ↦ rw y (omega arith)
  | inr y ↦ rw y (omega arith)
]
due_cons false c cs = elim (Bool-cases (is_gone c)) [
  | inl y ↦ rw y (omega arith)
  | inr y ↦ rw y (omega arith)
]

due_nil : (b : Bool) → due b [] ≡ 0
unfolding due from_first_gone
due_nil true = refl
due_nil false = refl

total_due :
    (b d : Bool) (c : ℕ) (cs : List ℕ) (before middle : ℕ) {after : ℕ}
    → (is_gone c || b) ≡ d
    → middle ≡ before + (if d then 1 else 0)
    → after ≡ middle + due d cs
    → after ≡ before + due b (c ∷ cs)
total_due b d c cs before middle flag made rest =
    let more : due b (c ∷ cs) ≡ (if d then 1 else 0) + due d cs = rw flag at (due_cons b c cs) in
    omega (arith, more)

num_cases : (n : ℕ) → (n ≡ 0) ⊎ ((k : ℕ) × (n ≡ suc k))
num_cases zero = inl refl
num_cases (suc k) = inr (k, refl)

-- Of a round over `waitid` that began with the history `h` and the flag `b`.
abbrev Reforked : Env → Bool → List Call → Out (Unit {0}) → Type 0
Reforked e b h (ret a h') =
    (cs : List ℕ) × (changes e h' ≡ changes e h ++ cs) × (forks h' ≡ forks h + due b cs)
Reforked e b h (running h') =
    (cs : List ℕ) × (changes e h' ≡ changes e h ++ cs) × (forks h' ≡ forks h + due b cs)
Reforked e b h (exit c h') = (c ≡ 1) × ((e h').ret ≡ none)
Reforked e b h (fault h') = ⊥

-- The process is the parent.
abbrev pub IsParent : Env → Type 0
IsParent e = (h : List Call) → (e (fork ∷ h)).ret ≢ some 0

module _ (e : Env) where
  no_change :
      (b : Bool) (h : List Call)
      → (cs : List ℕ) × (changes e h ≡ changes e h ++ cs) × (forks h ≡ forks h + due b cs)
  unfolding due from_first_gone
  no_change true h = ([], sym (append-nil (changes e h)), omega arith)
  no_change false h = ([], sym (append-nil (changes e h)), omega arith)

  -- One more change before the rest of the round.
  one_change :
      (b d : Bool) (c : ℕ) (h h₁ : List Call) (o : Out (Unit {0}))
      → (is_gone c || b) ≡ d
      → changes e h₁ ≡ changes e h ++ (c ∷ [])
      → forks h₁ ≡ forks h + (if d then 1 else 0)
      → Reforked e d h₁ o
      → Reforked e b h o
  one_change b d c h h₁ (ret a h') flag came made (cs, more, after) = (
    c ∷ cs,
    more ∙ ap (λ t. t ++ cs) came ∙ append_assoc (changes e h) (c ∷ []) cs,
    total_due b d c cs (forks h) (forks h₁) flag made after,
  )
  one_change b d c h h₁ (running h') flag came made (cs, more, after) = (
    c ∷ cs,
    more ∙ ap (λ t. t ++ cs) came ∙ append_assoc (changes e h) (c ∷ []) cs,
    total_due b d c cs (forks h) (forks h₁) flag made after,
  )
  one_change b d c h h₁ (exit v h') flag came made r = r
  one_change b d c h h₁ (fault h') flag came made r = r

  named_change :
      (h : List Call) (v p : ℕ)
      → (e (waitid ∷ h)).ret ≡ some v
      → get_or (e (waitid ∷ h)).bytes 0 0 ≡ suc p
      → changes e (waitid ∷ h) ≡ changes e h ++ (get_or (e (waitid ∷ h)).bytes 1 0 ∷ [])
  unfolding changes
  named_change h v p x y = rw (x, y) refl

  -- A `waitid` that reports no child.
  no_more :
      (b : Bool) (h : List Call)
      → reported (e (waitid ∷ h)).ret (e (waitid ∷ h)).bytes ≡ []
      → Reforked e b h (ret tt (waitid ∷ h))
  unfolding changes forks
  no_more b h none_named = ([], ap (λ t. changes e h ++ t) none_named, omega (arith, due_nil b))

  reap_loop_lem :
      (n sfd : ℕ) (b : Bool) (h : List Call) → IsParent e → Reforked e b h (reap_loop n sfd b e h)
  unfolding reap_loop start_child forks changes
  reap_loop_lem zero sfd b h parent = no_change b h
  reap_loop_lem (suc n) sfd b h parent =
      let h₁ = waitid ∷ h in
      let c = get_or (e h₁).bytes 1 0 in
      elim (Option-cases (e h₁).ret) [
        | inl x ↦ rw x (no_more b h (rw x refl))
        | inr (v, x) ↦ elim (num_cases (get_or (e h₁).bytes 0 0)) [
          | inl y ↦ rw (x, y) (no_more b h (rw (x, y) refl))
          | inr (p, y) ↦
              let came = named_change h v p x y in
              elim (Bool-cases (is_gone c || b)) [
                | inr old ↦
                    rw (x, y, old)
                      (one_change b false c h h₁ _ old came (omega arith)
                        (reap_loop_lem n sfd false h₁ parent))
                | inl due_now ↦
                    rw (x, y, due_now)
                      (elim (Option-cases (e (fork ∷ h₁)).ret) [
                        | inl z ↦ rw z (refl, z)
                        | inr (zero, z) ↦ absurd (parent h₁ z)
                        | inr (suc k, z) ↦ rw z (
                            one_change b true c h (fork ∷ h₁) _ due_now came (omega arith)
                              (reap_loop_lem n sfd true (fork ∷ h₁) parent))
                      ])
              ]
        ]
      ]

-- What a round has done, when it is over and between two passes of it: `cs` are the children that
-- `waitid` has reported since the history `h`, by their codes.
abbrev pub Replaced : Env → List Call → List Call → Type 0
Replaced e h h' =
    (cs : List ℕ) × (changes e h' ≡ changes e h ++ cs)
    × (forks h' ≡ forks h + length (from_first_gone cs))
    × (gone cs ≤ length (from_first_gone cs))

abbrev pub Replaces : Env → List Call → Out (Unit {0}) → Type 0
Replaces e h (ret a h') = Replaced e h h'
Replaces e h (running h') = Replaced e h h'
Replaces e h (exit c h') = (c ≡ 1) × ((e h').ret ≡ none)
Replaces e h (fault h') = ⊥

-- A round of the parent over the children that have changed, in any number of passes: it makes a new child
-- for each one that is gone, and so keeps its pool, but also for each one after the first that is gone,
-- when that one has only stopped or gone on. The process ends only with 1, after a call that failed.
pub reap_loop-Replaces :
    (e : Env) (n sfd : ℕ) (h : List Call) → IsParent e → Replaces e h (reap_loop n sfd false e h)
unfolding due
reap_loop-Replaces e n sfd h parent =
    widen (reap_loop n sfd false e h) (reap_loop_lem e n sfd false h parent)
  where
    widen : (o : Out (Unit {0})) → Reforked e false h o → Replaces e h o
    widen (ret a h') (cs, came, made) = (cs, came, made, gone-from_first_gone cs)
    widen (running h') (cs, came, made) = (cs, came, made, gone-from_first_gone cs)
    widen (exit c h') r = r
    widen (fault h') r = r
