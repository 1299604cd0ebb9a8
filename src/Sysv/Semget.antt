-- ===== src/Sysv/Semget.antt =====
-- The get functions of ALSP/lib_sysv_sem.c and lib_sysv_shm.c: which results they may give, and when.
use temp.Base.{
  ℕ, suc, ◌+◌, ◌*◌, ◌≡◌, ◌≢◌, ◌⊎◌, refl, false, Option, none, some, List, [], ◌∷◌, replicate,
}
use temp.Base.Sys.{
  Call, Errno, Env, ret, ipc_create, ipc_open, malloc, free, semctl_setall, ftok, shmat,
}
use temp.Sysv.{key_of, create_or_open, attach, sysv_shmget}

-- The memory that a history has had from `malloc`, and how often it gave memory back.
pub allocations : Env → List Call → ℕ
allocations e [] = 0
allocations e (malloc n ∷ h) = elim (e (malloc n ∷ h)).ret [
  | none ↦ allocations e h
  | some _ ↦ suc (allocations e h)
]
allocations e (_ ∷ h) = allocations e h

pub frees : List Call → ℕ
frees [] = 0
frees (free ∷ h) = suc (frees h)
frees (_ ∷ h) = frees h

-- How a run with a key comes to its result, from the history `h` on: the set could not be created, or it
-- exists already and is opened or not, or a new set is filled or not.
pub data Had (e : Env) (key n_sem value : ℕ) (h : List Call) : Option ℕ → List Call → Type 0 where
  not_created :
      (e (ipc_create key ∷ h)).ret ≡ none
      → (e (ipc_create key ∷ h)).errno ≢ Errno.eexist
      → Had e key n_sem value h none (ipc_create key ∷ h)
  existing :
      (o : Option ℕ)
      → (e (ipc_create key ∷ h)).ret ≡ none
      → (e (ipc_create key ∷ h)).errno ≡ Errno.eexist
      → (e (ipc_open key ∷ ipc_create key ∷ h)).ret ≡ o
      → Had e key n_sem value h o (ipc_open key ∷ ipc_create key ∷ h)
  no_memory :
      (id : ℕ)
      → (e (ipc_create key ∷ h)).ret ≡ some id
      → (e (malloc (2 * n_sem) ∷ ipc_create key ∷ h)).ret ≡ none
      → Had e key n_sem value h none (malloc (2 * n_sem) ∷ ipc_create key ∷ h)
  not_filled :
      (id : ℕ) (t : List Call)
      → (e (ipc_create key ∷ h)).ret ≡ some id
      → t ≡ semctl_setall id (replicate n_sem value) ∷ malloc (2 * n_sem) ∷ ipc_create key ∷ h
      → (e t).ret ≡ none
      → Had e key n_sem value h none (free ∷ t)
  filled :
      (id k : ℕ) (t : List Call)
      → (e (ipc_create key ∷ h)).ret ≡ some id
      → t ≡ semctl_setall id (replicate n_sem value) ∷ malloc (2 * n_sem) ∷ ipc_create key ∷ h
      → (e t).ret ≡ some k
      → Had e key n_sem value h (some id) (free ∷ t)

-- The key is the one given, or the one that `ftok` gives for the path; without a key there is no set.
abbrev pub ByKey : Env → Option ℕ → ℕ → ℕ → ℕ → List Call → Option ℕ → List Call → Type 0
ByKey e none fixkey n_sem value h r h' = Had e fixkey n_sem value h r h'
ByKey e (some tok) fixkey n_sem value h r h' =
    (((e (ftok tok ∷ h)).ret ≡ none) × (r ≡ none) × (h' ≡ ftok tok ∷ h))
    ⊎ ((key : ℕ) × ((e (ftok tok ∷ h)).ret ≡ some key) × Had e key n_sem value (ftok tok ∷ h) r h')

-- All the memory allocated has been given back.
abbrev pub GivenBack : Env → List Call → List Call → Type 0
GivenBack e h h' = allocations e h' + frees h ≡ allocations e h + frees h'

-- What a run with a key promises.
abbrev Gets : Env → ℕ → ℕ → ℕ → List Call → Option ℕ → List Call → Type 0
Gets e key n_sem value h r h' = GivenBack e h h' × Had e key n_sem value h r h'

-- `sysv_shmget` reports success although the segment could not be attached: whenever `shmat` fails on
-- the segment that was created for the key given, its identifier is returned all the same.
shmat_failure_unnoticed :
    (fixkey id : ℕ) (e : Env) (h : List Call)
    → (e (ipc_create fixkey ∷ h)).ret ≡ some id
    → (e (shmat id ∷ ipc_create fixkey ∷ h)).ret ≡ none
    → sysv_shmget false none fixkey e h ≡ ret (some id) (shmat id ∷ ipc_create fixkey ∷ h)
unfolding sysv_shmget key_of create_or_open attach
shmat_failure_unnoticed fixkey id e h made lost = rw (made, lost) refl
