-- ===== src/FifoGame/Child.antt =====
-- The loop of the child of sp/ipc/ipc.c after the parent has gone.
use temp.Base.{ℕ, zero, suc, ◌≡◌, refl, some, List, ◌∷◌}
use temp.Base.Sys.{Call, Env, running, read}
use temp.FifoGame.{child_loop}

-- A history followed by `n` reads of the FIFO of requests.
pub reads : ℕ → ℕ → List Call → List Call
reads zero fd h = h
reads (suc n) fd h = reads n fd (read fd 8192 ∷ h)

-- Once every `read` of the FIFO of requests returns 0, as it does when no process has it open for
-- writing, the child never ends and never answers: however many rounds it is given, it is still
-- running, and each of its rounds is one `read`.
child_spins :
    (n fd_req fd_res : ℕ) (e : Env) (h : List Call)
    → ((t : List Call) → (e (read fd_req 8192 ∷ t)).ret ≡ some 0)
    → child_loop n fd_req fd_res e h ≡ running (reads n fd_req h)
unfolding child_loop reads
child_spins zero fd_req fd_res e h eof = refl
child_spins (suc n) fd_req fd_res e h eof =
    rw (eof h) (child_spins n fd_req fd_res e (read fd_req 8192 ∷ h) eof)
