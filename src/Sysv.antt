-- ===== src/Sysv.antt =====
-- ALSP/lib_sysv_sem.c, lib_sysv_msg.c and lib_sysv_shm.c: the library round System V semaphores,
-- message queues and shared memory. A result `none` is -1. A `sem_op` is its 16-bit pattern.
pub mod Semget
mod Tests
use temp.Base.{ℕ, ◌*◌, ◌^◌, ◌-◌, Bool, Option, none, some, replicate, zero, suc, if◌then◌else◌}
use temp.Base.Sys.{
  Call, Errno, M, pure, sys, ◌>>=◌, ◌>>◌, ftok, ipc_create, ipc_open, ipc_rmid, ipc_getval, shmat,
  semctl_setall, semop, malloc, free,
}

-- The key of the three `get` functions: from the path, or the one given. `tok` is NULL or a path.
pub key_of : Option ℕ → ℕ → M (Option ℕ)
key_of none fixkey = pure (some fixkey)
key_of (some tok) fixkey = do r ← sys (ftok tok); pure r.ret

-- `sysv_semget` once a new set is created: the values are stored through an array of `n_sem` shorts.
pub fill_semaphores : ℕ → ℕ → ℕ → M (Option ℕ)
fill_semaphores sem_id n_sem sem_value = do
  a ← sys (malloc (2 * n_sem))
  elim a.ret [
    | none ↦ pure none
    | some _ ↦ do
      r ← sys (semctl_setall sem_id (replicate n_sem sem_value))
      sys free
      elim r.ret [ none ↦ pure none | some _ ↦ pure (some sem_id) ]
  ]

pub create_semaphores : ℕ → ℕ → ℕ → M (Option ℕ)
create_semaphores sem_key n_sem sem_value = do
  r ← sys (ipc_create sem_key)
  elim r.ret [
    | some sem_id ↦ fill_semaphores sem_id n_sem sem_value
    | none ↦ elim r.errno [
      | Errno.eexist ↦ do q ← sys (ipc_open sem_key); pure q.ret
      | _ ↦ pure none
    ]
  ]

pub sysv_semget : Option ℕ → ℕ → ℕ → ℕ → M (Option ℕ)
sysv_semget tok sem_fixkey n_sem sem_value = do
  k ← key_of tok sem_fixkey
  elim k [ none ↦ pure none | some sem_key ↦ create_semaphores sem_key n_sem sem_value ]

-- The other calls give 0, or the value, or -1.
abbrev zero_or_fail : Call → M (Option ℕ)
zero_or_fail c = do r ← sys c; elim r.ret [ none ↦ pure none | some _ ↦ pure (some 0) ]

pub sysv_semrm : ℕ → M (Option ℕ)
sysv_semrm sem_id = zero_or_fail (ipc_rmid sem_id)

pub sysv_semval : ℕ → ℕ → M (Option ℕ)
sysv_semval sem_id sem_idx = do r ← sys (ipc_getval sem_id sem_idx); pure r.ret

pub sysv_semwait : ℕ → ℕ → M (Option ℕ)
sysv_semwait sem_id sem_idx = zero_or_fail (semop sem_id sem_idx (2 ^ 16 - 1))

pub sysv_sempost : ℕ → ℕ → M (Option ℕ)
sysv_sempost sem_id sem_idx = zero_or_fail (semop sem_id sem_idx 1)

pub sysv_semzwait : ℕ → ℕ → M (Option ℕ)
sysv_semzwait sem_id sem_idx = zero_or_fail (semop sem_id sem_idx 0)

-- The creation of a queue or a segment, or the opening of the one that exists.
pub create_or_open : ℕ → M (Option ℕ)
create_or_open key = do
  r ← sys (ipc_create key)
  elim r.ret [
    | some id ↦ pure (some id)
    | none ↦ elim r.errno [ Errno.eexist ↦ do q ← sys (ipc_open key); pure q.ret | _ ↦ pure none ]
  ]

pub sysv_msgget : Option ℕ → ℕ → M (Option ℕ)
sysv_msgget tok msg_fixkey = do
  k ← key_of tok msg_fixkey
  elim k [ none ↦ pure none | some msg_key ↦ create_or_open msg_key ]

pub sysv_msgrm : ℕ → M (Option ℕ)
sysv_msgrm msg_id = zero_or_fail (ipc_rmid msg_id)

-- `*ret = shmat(...)` and its test against NULL, which is address 0. A failure of `shmat` is the
-- address -1, which is not NULL.
pub attach : ℕ → M (Option ℕ)
attach shm_id = do
  r ← sys (shmat shm_id)
  elim r.ret [
    | none ↦ pure (some shm_id)
    | some zero ↦ pure none
    | some (suc _) ↦ pure (some shm_id)
  ]

-- `sysv_shmget`; `bad` says that `ret` is NULL or `size` is negative.
pub sysv_shmget : Bool → Option ℕ → ℕ → M (Option ℕ)
sysv_shmget bad tok shm_fixkey =
    let get : M (Option ℕ) = do
      k ← key_of tok shm_fixkey
      elim k [
        | none ↦ pure none
        | some shm_key ↦ do
          id ← create_or_open shm_key
          elim id [ none ↦ pure none | some shm_id ↦ attach shm_id ]
      ]
    in if bad then pure none else get

-- `sysv_shmrm` returns what `shmctl` returned.
pub sysv_shmrm : ℕ → M (Option ℕ)
sysv_shmrm shm_id = do r ← sys (ipc_rmid shm_id); pure r.ret
