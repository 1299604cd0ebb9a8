-- ===== src/ErrorLog/Message.antt =====
-- The line that APUE/err_routine.c and APUE/err_daemon.c print, against the message in full.
use temp.Base.{
  ℕ, zero, suc, ◌+◌, ◌-◌, ◌<◌, ◌≡◌, refl, ap, Bool, true, false, Option, none, some, List, [], ◌∷◌,
  ◌++◌, if◌then◌else◌, length, take, length-take, lt→ltb, arith,
}
use temp.Base.Sys.{Env, Call, ret, write, syslog}
use temp.ErrorLog.{add_newline, line_of, err_doit, log_doit}

-- The message in full: the text, and the reason behind a colon.
abbrev pub message : Option (List ℕ) → List ℕ → List ℕ
message none text = text
message (some reason) text = text ++ (b':' ∷ b' ' ∷ reason)

-- A text cut to `n` bytes, and what then fits of another, are the two together cut to `n`.
take-append :
    (n : ℕ) (xs ys : List ℕ) → take n xs ++ take (n - length (take n xs)) ys ≡ take n (xs ++ ys)
take-append zero xs ys = refl
take-append (suc n) [] ys = let e : suc n - 0 ≡ suc n = omega arith in rw e refl
take-append (suc n) (x ∷ xs) ys =
    let e : suc n - suc (length (take n xs)) ≡ n - length (take n xs) = omega arith in
    rw e (ap (λ t. x ∷ t) (take-append n xs ys))

add_newline_short :
    (buf : List ℕ) → length buf + 1 < 4096 → add_newline buf ≡ some (buf ++ (10 ∷ []))
unfolding add_newline
add_newline_short buf l = rw (lt→ltb (length buf + 1) 4096 l) refl

length-take_lt : (n : ℕ) (xs : List ℕ) → length (take n xs) + 1 < n + 2
length-take_lt n xs = omega (arith, length-take n xs)

add_newline-take : (xs : List ℕ) → add_newline (take 4094 xs) ≡ some (take 4094 xs ++ (10 ∷ []))
add_newline-take xs = add_newline_short (take 4094 xs) (length-take_lt 4094 xs)

line_of_lem :
    (error : Option (List ℕ)) (text : List ℕ)
    → line_of error text ≡ some (take 4094 (message error text) ++ (10 ∷ []))
unfolding line_of
line_of_lem none text = add_newline-take text
line_of_lem (some reason) text =
    let room : 4096 - length (take 4094 text) - 1 - 1 ≡ 4094 - length (take 4094 text) =
      omega arith in
    rw (room, take-append 4094 text (b':' ∷ b' ' ∷ reason))
      (add_newline-take (text ++ (b':' ∷ b' ' ∷ reason)))

-- Whatever the lengths of the text and of the reason, neither `err_doit` nor `log_doit` writes behind
-- its buffer: the first prints on the standard error the first 4094 bytes of the message and a newline,
-- and the second gives the same line to the standard error or to `syslog`.
pub err_doit_lem :
    (to_stderr : Bool) (error : Option (List ℕ)) (text : List ℕ) (e : Env) (h : List Call)
    → (err_doit error text e h ≡ ret tt (write 2 (take 4094 (message error text) ++ (10 ∷ [])) ∷ h))
      × (log_doit to_stderr error text e h
          ≡ ret tt (
              (if to_stderr
                then write 2 (take 4094 (message error text) ++ (10 ∷ []))
                else syslog (take 4094 (message error text) ++ (10 ∷ [])))
              ∷ h))
unfolding err_doit log_doit
err_doit_lem true error text e h =
    (rw (line_of_lem error text, err_doit) refl, rw (line_of_lem error text, log_doit) refl)
err_doit_lem false error text e h =
    (rw (line_of_lem error text, err_doit) refl, rw (line_of_lem error text, log_doit) refl)
