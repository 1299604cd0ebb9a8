-- ===== src/MessageQueue/Typed.antt =====
-- ALSP/sysv_msg.c and ALSP/sysv_msg_regex.c: messages with a type. A `long` is its 64-bit pattern.
use temp.Base.{
  ℕ, zero, suc, ◌+◌, ◌-◌, ◌*◌, ◌%◌, ◌^◌, Option, none, some, List, [], ◌∷◌, ltb, ◌==◌,
  if◌then◌else◌, length, get_or, take, drop, fgets_line,
}
use temp.Base.Sys.{
  M, pure, halt, unfinished, crash, sys, ◌>>=◌, ◌>>◌, feof, fgets, fopen, fclose, getchar, regcomp,
  regexec, msgsnd, msgrcv,
}
use temp.Sysv.{sysv_msgget, sysv_msgrm}

-- LEN_MQ_MTEXT
abbrev pub len_mq_mtext : ℕ
len_mq_mtext = 512

-- `(long) (c - '0')` of a `char`, which is signed.
abbrev pub digit_type : ℕ → ℕ
digit_type c = ((if ltb c 128 then c else c + 2 ^ 64 - 256) + 2 ^ 64 - b'0') % 2 ^ 64

-- The loop of `start_msq_sender` of sysv_msg.c, in at most `n` passes. The copy of a negative number of
-- characters is a fault.
unfoldable pub typed_loop : ℕ → ℕ → M (Unit {0})
typed_loop zero msg_id = unfinished
typed_loop (suc n) msg_id = do
  at_end ← sys feof
  elim at_end.ret [
    | some zero ↦ do
      r ← sys (fgets len_mq_mtext)
      let rbuf = fgets_line (len_mq_mtext - 1) r.bytes
      let mtype = digit_type (get_or rbuf 0 0)
      let mtext = take (length rbuf - 3) (drop 2 rbuf)
      let send : M (Unit {0}) = do
        s ← sys (msgsnd msg_id mtype mtext)
        elim s.ret [ none ↦ pure tt | some _ ↦ typed_loop n msg_id ]
      elim r.ret [ none ↦ pure tt | some _ ↦ if ltb (length rbuf) 3 then crash else send ]
    | _ ↦ pure tt
  ]

pub start_typed_sender : ℕ → ℕ → List ℕ → M (Option ℕ)
start_typed_sender n msg_id srcfile = do
  f ← sys (fopen srcfile)
  elim f.ret [ none ↦ pure none | some _ ↦ do typed_loop n msg_id; sys fclose; pure (some 0) ]

-- `atol` of a text of digits.
abbrev pub atol_from : ℕ → List ℕ → ℕ
atol_from v [] = v
atol_from v (d ∷ ds) = atol_from (v * 10 + (d - b'0')) ds

-- A part of a line, from `rm_so` to `rm_eo`.
abbrev pub part : ℕ → ℕ → List ℕ → List ℕ
part so eo line = take (eo - so) (drop so line)

-- The part of the loop of sysv_msg_regex.c behind a match: COPY_RMTAB stores one character more than the
-- part has, and `mbuf` has ten.
unfoldable pub send_matched : ℕ → List ℕ → List ℕ → M (Option ℕ)
send_matched msg_id rbuf matchtab =
    let so1 = get_or matchtab 2 0 in
    let eo1 = get_or matchtab 3 0 in
    let so2 = get_or matchtab 4 0 in
    let eo2 = get_or matchtab 5 0 in
    let send : M (Option ℕ) = do
      s ← sys (msgsnd msg_id (atol_from 0 (part so1 eo1 rbuf)) (part so2 eo2 rbuf))
      pure s.ret
    in if ltb (eo1 - so1) 10 then if ltb (eo2 - so2) len_mq_mtext then send else crash else crash

-- The loop of `start_msq_sender` of sysv_msg_regex.c. REG_NOMATCH is 1, and lines without a match are
-- passed over.
unfoldable pub regex_loop : ℕ → ℕ → M (Unit {0})
regex_loop zero msg_id = unfinished
regex_loop (suc n) msg_id = do
  r ← sys (fgets len_mq_mtext)
  let rbuf = fgets_line (len_mq_mtext - 1) r.bytes
  elim r.ret [
    | none ↦ pure tt
    | some _ ↦ do
      m ← sys (regexec rbuf)
      elim m.ret [
        | some zero ↦ do
          s ← send_matched msg_id rbuf m.bytes
          elim s [ none ↦ pure tt | some _ ↦ regex_loop n msg_id ]
        | some (suc zero) ↦ regex_loop n msg_id
        | _ ↦ pure tt
      ]
  ]

pub start_regex_sender : ℕ → ℕ → List ℕ → M (Option ℕ)
start_regex_sender n msg_id srcfile = do
  c ← sys regcomp
  let go_on : M (Option ℕ) = do
    f ← sys (fopen srcfile)
    elim f.ret [ none ↦ pure none | some _ ↦ do regex_loop n msg_id; sys fclose; pure (some 0) ]
  elim c.ret [ some zero ↦ go_on | _ ↦ pure none ]

-- `start_msq_receiver`, in at most `n` passes.
unfoldable pub receive_typed : ℕ → ℕ → ℕ → M (Option ℕ)
receive_typed zero msg_id mtype = unfinished
receive_typed (suc n) msg_id mtype = do
  r ← sys (msgrcv msg_id mtype)
  elim r.ret [ none ↦ pure (some 0) | some _ ↦ receive_typed n msg_id mtype ]

-- `main`, for `argv[0]`, the first character of `argv[1]`, and `argv[2]` as a path and as a number.
pub typed_main : (ℕ → List ℕ → M (Option ℕ)) → ℕ → ℕ → ℕ → List ℕ → ℕ → ℕ → M ℕ
typed_main sender argc argv0 mode srcfile mtype n =
    let switch : ℕ → M ℕ = λ msg_id.
      let send : M ℕ = do sender msg_id srcfile; sys getchar; sysv_msgrm msg_id; pure 0
      in let receive : M ℕ = do receive_typed n msg_id mtype; sysv_msgrm msg_id; pure 0
        in if mode == b's' then send else if mode == b'r' then receive else pure 1 in
    let begin : M ℕ = do
      o ← sysv_msgget (some argv0) 0
      elim o [ none ↦ halt 1 | some msg_id ↦ switch msg_id ]
    in if argc == 3 then begin else halt 1

pub sysv_msg_main : ℕ → ℕ → ℕ → List ℕ → ℕ → ℕ → M ℕ
sysv_msg_main argc argv0 mode srcfile mtype n =
    typed_main (start_typed_sender n) argc argv0 mode srcfile mtype n

pub sysv_msg_regex_main : ℕ → ℕ → ℕ → List ℕ → ℕ → ℕ → M ℕ
sysv_msg_regex_main argc argv0 mode srcfile mtype n =
    typed_main (start_regex_sender n) argc argv0 mode srcfile mtype n
