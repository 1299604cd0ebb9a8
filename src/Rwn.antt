-- ===== src/Rwn.antt =====
-- APUE/rwn.c: `readn` and `writen`, which go on after short counts. `read` and `write` transfer at most
-- the bytes asked for, so that `nleft` does not wrap around. The pointer into the buffer is what has
-- been stored so far, for `readn`, and what is left of the text, for `writen`.
pub mod Loops
pub mod RoundTrip
mod Tests
use temp.Base.{
  ℕ, zero, suc, ◌-◌, Option, none, some, List, [], ◌++◌, ◌==◌, if◌then◌else◌, take, drop,
}
use temp.Base.Sys.{M, pure, unfinished, sys, ◌>>=◌, read, write}

-- `while (nleft > 0)` of `readn`, in at most `k` passes, and the `return` behind it: the count, `none`
-- for -1, and the bytes stored.
pub readn_loop : ℕ → ℕ → ℕ → ℕ → List ℕ → M (Option ℕ × List ℕ)
readn_loop k fd n zero stored = pure (some n, stored)
readn_loop zero fd n (suc left) stored = unfinished
readn_loop (suc k) fd n (suc left) stored = do
  r ← sys (read fd (suc left))
  elim r.ret [
    | none ↦ pure (if suc left == n then (none, stored) else (some (n - suc left), stored))
    | some zero ↦ pure (some (n - suc left), stored)
    | some (suc nread) ↦ readn_loop k fd n (left - nread) (stored ++ take (suc nread) r.bytes)
  ]

pub readn : ℕ → ℕ → M (Option ℕ × List ℕ)
readn fd n = readn_loop n fd n n []

-- `while (nleft > 0)` of `writen`; `ptr` is what is left of the text.
pub writen_loop : ℕ → ℕ → ℕ → ℕ → List ℕ → M (Option ℕ)
writen_loop k fd n zero ptr = pure (some n)
writen_loop zero fd n (suc left) ptr = unfinished
writen_loop (suc k) fd n (suc left) ptr = do
  r ← sys (write fd (take (suc left) ptr))
  elim r.ret [
    | none ↦ pure (if suc left == n then none else some (n - suc left))
    | some zero ↦ pure (some (n - suc left))
    | some (suc nwritten) ↦ writen_loop k fd n (left - nwritten) (drop (suc nwritten) ptr)
  ]

pub writen : ℕ → List ℕ → ℕ → M (Option ℕ)
writen fd ptr n = writen_loop n fd n n ptr
