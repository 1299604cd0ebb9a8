-- ===== src/FileTransfer/Upload.antt =====
-- The upload of sp/sock/clnt/clnt.c: the bytes that reach the socket against those of the file.

use temp.Base.{
  ℕ, zero, suc, ◌+◌, ◌-◌, ◌<◌, ◌≡◌, refl, sym, ◌∙◌, ap, false, some, List, [], ◌∷◌, ◌++◌,
  append-nil, append_assoc, arith, ◌==◌, min, take, drop, length, length-take, take-append-drop,
  length-append,
}
use temp.Base.Traffic.{stream, got, self_eq, take_all}
use temp.Base.Sys.{Call, Env, bind-ret, ret, send, read, recv, close}
use temp.FileTransfer.{send_chunk, send_loop, send_file, finish, int_of, minus_one}

-- `send` takes all that it is offered.
abbrev pub WholeSends : Env → Type 0
WholeSends e =
    (f : ℕ) (text : List ℕ) (h : List Call) → (e (send f text ∷ h)).ret ≡ some (length text)

-- `read` gives the next bytes of the file, as many as the buffer holds, and 0 at its end.
abbrev pub ReadsFile : Env → ℕ → List ℕ → Type 0
ReadsFile e fd file =
    (h : List Call) (rest : List ℕ)
    → got e fd h ++ rest ≡ file
    → ((e (read fd 8192 ∷ h)).ret ≡ some (min 8192 (length rest)))
      × ((e (read fd 8192 ∷ h)).bytes ≡ take 8192 rest)

stream_send :
    (e : Env) (f : ℕ) (text : List ℕ) (h : List Call)
    → WholeSends e
    → stream e f (send f text ∷ h) ≡ stream e f h ++ text
unfolding stream
stream_send e f text h w =
    rw (self_eq f, w f text h)
      (ap (λ r. stream e f h ++ r) (take_all (length text) text (omega arith)))

-- A chunk is sent by one `send`.
send_chunk_lem :
    (n sfd fd k : ℕ) (buf : List ℕ) (e : Env) (h : List Call)
    → WholeSends e
    → length buf ≡ suc k
    → send_chunk (suc n) sfd fd buf (suc k) e h ≡ ret tt (send sfd buf ∷ h)
unfolding send_chunk
send_chunk_lem n sfd fd k buf e h w len =
    let whole : take (suc k) buf ≡ buf = take_all (suc k) buf (omega arith) in
    let over : suc k - length buf ≡ 0 = omega arith in rw (whole, w sfd buf h, over) (last n)
  where
    last : (m : ℕ) → send_chunk m sfd fd buf 0 e (send sfd buf ∷ h) ≡ ret tt (send sfd buf ∷ h)
    last zero = refl
    last (suc m) = refl

-- One round of the upload: a read of `suc k` bytes, and their send.
send_round :
    (n sfd fd k : ℕ) (e : Env) (h : List Call)
    → WholeSends e
    → (e (read fd 8192 ∷ h)).ret ≡ some (suc k)
    → length (e (read fd 8192 ∷ h)).bytes ≡ suc k
    → send_loop (suc n) sfd fd e h
      ≡ send_loop n sfd fd e (send sfd (e (read fd 8192 ∷ h)).bytes ∷ read fd 8192 ∷ h)
unfolding send_loop
send_round n sfd fd k e h w r len = rw r (
    bind-ret (send_chunk (suc n) sfd fd (e (read fd 8192 ∷ h)).bytes (suc k))
      (λ _. send_loop n sfd fd) e (read fd 8192 ∷ h) _ tt
      (send_chunk_lem n sfd fd k (e (read fd 8192 ∷ h)).bytes e (read fd 8192 ∷ h) w len))

got_round :
    (e : Env) (sfd fd k : ℕ) (text : List ℕ) (h : List Call)
    → (e (read fd 8192 ∷ h)).ret ≡ some (suc k)
    → length (e (read fd 8192 ∷ h)).bytes ≡ suc k
    → got e fd (send sfd text ∷ read fd 8192 ∷ h) ≡ got e fd h ++ (e (read fd 8192 ∷ h)).bytes
unfolding got
got_round e sfd fd k text h r len =
    rw (self_eq fd, r)
      (ap (λ b. got e fd h ++ b) (take_all (suc k) (e (read fd 8192 ∷ h)).bytes (omega arith)))

stream_read :
    (e : Env) (sfd fd m : ℕ) (h : List Call) → stream e sfd (read fd m ∷ h) ≡ stream e sfd h
unfolding stream
stream_read e sfd fd m h = refl

-- The whole of what is left of the file reaches the socket.
abbrev Uploaded : ℕ → ℕ → ℕ → Env → List Call → List ℕ → Type 0
Uploaded n sfd fd e h rest =
    (h' : List Call) × (send_loop n sfd fd e h ≡ ret tt h')
    × (stream e sfd h' ≡ stream e sfd h ++ rest)

send_loop_end :
    (n sfd fd : ℕ) (e : Env) (h : List Call)
    → (e (read fd 8192 ∷ h)).ret ≡ some 0
    → Uploaded (suc n) sfd fd e h []
unfolding send_loop
send_loop_end n sfd fd e h r =
    (read fd 8192 ∷ h, rw r refl, stream_read e sfd fd 8192 h ∙ sym (append-nil (stream e sfd h)))

extend :
    (n sfd fd : ℕ) (e : Env) (h : List Call) (buf later rest : List ℕ)
    → WholeSends e
    → send_loop (suc n) sfd fd e h ≡ send_loop n sfd fd e (send sfd buf ∷ read fd 8192 ∷ h)
    → buf ++ later ≡ rest
    → Uploaded n sfd fd e (send sfd buf ∷ read fd 8192 ∷ h) later
    → Uploaded (suc n) sfd fd e h rest
extend n sfd fd e h buf later rest w s p (h', run, sent) = (
  h',
  s ∙ run,
  sent
      ∙ ap (λ t. t ++ later) (stream_send e sfd buf (read fd 8192 ∷ h) w)
      ∙ ap (λ t. (t ++ buf) ++ later) (stream_read e sfd fd 8192 h)
      ∙ append_assoc (stream e sfd h) buf later
      ∙ ap (λ t. stream e sfd h ++ t) p,
)

send_loop_lem :
    (n sfd fd : ℕ) (e : Env) (h : List Call) (rest file : List ℕ)
    → WholeSends e
    → ReadsFile e fd file
    → got e fd h ++ rest ≡ file
    → length rest < n
    → Uploaded n sfd fd e h rest
send_loop_lem zero sfd fd e h rest file w f g l = absurd (omega arith)
send_loop_lem (suc n) sfd fd e h [] file w f g l = send_loop_end n sfd fd e h ((f h [] g).0)
send_loop_lem (suc n) sfd fd e h (x ∷ xs) file w f g l =
    let rest = x ∷ xs in
    let (r, b) = f h rest g in
    let k = min 8192 (length rest) - 1 in
    let size : min 8192 (length rest) ≡ suc k = omega arith in
    let buf = (e (read fd 8192 ∷ h)).bytes in
    let len : length buf ≡ suc k = ap length b ∙ length-take 8192 rest ∙ size in
    let parts : buf ++ drop 8192 rest ≡ rest =
      ap (λ t. t ++ drop 8192 rest) b ∙ take-append-drop 8192 rest in
    let h₂ = send sfd buf ∷ read fd 8192 ∷ h in
    let g₂ : got e fd h₂ ++ drop 8192 rest ≡ file =
      ap (λ t. t ++ drop 8192 rest) (got_round e sfd fd k buf h (r ∙ ap some size) len)
      ∙ append_assoc (got e fd h) buf (drop 8192 rest)
      ∙ ap (λ t. got e fd h ++ t) parts
      ∙ g in
    let shorter : length (drop 8192 rest) < n =
      omega (arith, length-append buf (drop 8192 rest), ap length parts, len) in
    extend n sfd fd e h buf (drop 8192 rest) rest w
      (send_round n sfd fd k e h w (r ∙ ap some size) len) parts
      (send_loop_lem n sfd fd e h₂ (drop 8192 rest) file w f g₂ shorter)

-- When every send is whole, the file can be read, and the server does not answer with -1, `send_file`
-- comes to its end, with 0, in at most one round more than the file has bytes, and the socket has then
-- taken exactly the name of the file and all its bytes, in order.
pub send_file_lem :
    (n sfd fd : ℕ) (filename file : List ℕ) (e : Env) (h : List Call) {k : ℕ}
    → WholeSends e
    → ReadsFile e fd file
    → got e fd h ≡ []
    → (e (recv sfd 4 ∷ send sfd filename ∷ h)).ret ≡ some k
    → (int_of (e (recv sfd 4 ∷ send sfd filename ∷ h)).bytes == minus_one) ≡ false
    → length file < n
    → (h' : List Call) × (send_file n sfd fd filename e h ≡ ret 0 h')
      × (stream e sfd h' ≡ stream e sfd h ++ (filename ++ file))
unfolding send_file finish stream got
send_file_lem n sfd fd filename file e h w f none_read r good l =
    let h₁ = recv sfd 4 ∷ send sfd filename ∷ h in
    let (h', run, sent) =
      send_loop_lem n sfd fd e h₁ file file w f (ap (λ t. t ++ file) none_read) l in
    (
      close fd ∷ close sfd ∷ h',
      rw (w sfd filename h, self_eq (length filename), r, good)
          (bind-ret (send_loop n sfd fd) (λ _. finish sfd fd) e h₁ h' tt run),
      sent
          ∙ ap (λ t. t ++ file) (stream_send e sfd filename h w)
          ∙ append_assoc (stream e sfd h) filename file,
    )

-- A `send` that takes only the first `k` bytes of a chunk is followed by a send of the bytes from the
-- start of the chunk again, not of those that are left: the peer gets the first `k` bytes twice.
short_send_repeats :
    (n sfd fd k j m : ℕ) (buf : List ℕ) (e : Env) (h : List Call)
    → length buf ≡ suc m
    → suc m ≡ k + suc j
    → (e (send sfd buf ∷ h)).ret ≡ some k
    → (e (send sfd (take (suc j) buf) ∷ send sfd buf ∷ h)).ret ≡ some (suc j)
    → (h' : List Call) × (send_chunk (suc (suc n)) sfd fd buf (suc m) e h ≡ ret tt h')
      × (stream e sfd h' ≡ (stream e sfd h ++ take k buf) ++ take (suc j) buf)
unfolding send_chunk stream
short_send_repeats n sfd fd k j m buf e h len split first second =
    let whole : take (suc m) buf ≡ buf = take_all (suc m) buf (omega arith) in
    let left : suc m - k ≡ suc j = omega arith in
    let again : take (suc j) (take (suc j) buf) ≡ take (suc j) buf =
      take_all (suc j) (take (suc j) buf) (omega (arith, length-take (suc j) buf)) in
    let over : suc j - suc j ≡ 0 = omega arith in
    (
      send sfd (take (suc j) buf) ∷ send sfd buf ∷ h,
      rw (whole, first, left, second, over) (last n),
      rw (self_eq sfd, second, first) (ap (λ t. (stream e sfd h ++ take k buf) ++ t) again),
    )
  where
    last :
        (p : ℕ)
        → send_chunk p sfd fd buf 0 e (send sfd (take (suc j) buf) ∷ send sfd buf ∷ h)
          ≡ ret tt (send sfd (take (suc j) buf) ∷ send sfd buf ∷ h)
    last zero = refl
    last (suc p) = refl
