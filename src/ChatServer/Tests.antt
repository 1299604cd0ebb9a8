-- ===== src/ChatServer/Tests.antt =====
-- The chat server of sp/select/serv.c on concrete inputs.
use temp.Base.{
  until_nul, ℕ, ◌≡◌, refl, none, some, List, [], ◌∷◌, arith, replicate, if◌then◌else◌, ◌==◌,
}
use temp.Base.Sys.{Call, Env, recv, close, send, Errno, Ends, Returns, history}
use temp.ChatServer.{
  Clients, without, hear, hear_loop, removeclient, send_all, isset, strstr, starts_with,
}
use temp.ChatServer.Table.{IsValid, present}
use temp.ChatServer.Chat.{hear_says, Sent}
use temp.ChatServer.Round.{Heard, hear_loop_lem}

-- Clients 4, 5 and 6.
abbrev three : Clients
three = record { clisock_list = 4 ∷ 5 ∷ 6 ∷ replicate 1021 0; num_chat = 3 }

three-IsValid : IsValid three
three-IsValid = record { storage = refl; fits = omega arith }

-- Client 4 has closed its connection; the others say "hi".
abbrev bytes_of : ℕ → ℕ
bytes_of f = if f == 4 then 0 else 2

abbrev replies : Env
replies [] = record { ret = none; errno = Errno.other; bytes = [] }
replies (recv f n ∷ h) = record {
  ret = some (bytes_of f);
  errno = Errno.other;
  bytes = b'h' ∷ b'i' ∷ [];
}
replies (c ∷ h) = record { ret = some 0; errno = Errno.other; bytes = [] }

-- Client 6 is ready, is moved to the place of client 4, and is not read in this round.
six_not_read :
    history (hear_loop 3 three 0 (4 ∷ 5 ∷ 6 ∷ []) replies [])
    ≡ send 5 (b'h' ∷ b'i' ∷ []) ∷ send 6 (b'h' ∷ b'i' ∷ []) ∷ recv 5 511 ∷ close 4 ∷ recv 4 511 ∷ []
unfolding hear_loop hear removeclient without send_all isset strstr until_nul starts_with
six_not_read = refl

hear_says_example :
    Ends
      (λ c' h'.
        (c' ≡ three) × ((f : ℕ) → Sent f (b'h' ∷ b'i' ∷ []) (present f three) (recv 5 511 ∷ []) h'))
      (λ _ _. ⊥)
      (hear three 1 replies [])
unfolding strstr until_nul starts_with
hear_says_example = hear_says three 1 1 replies [] refl refl

reads_do_not_fail : (f : ℕ) (h : List Call) → (replies (recv f 511 ∷ h)).ret ≡ none → ⊥
reads_do_not_fail f h e = cc

hear_loop_lem_example : Returns (Heard three 0 []) (hear_loop 3 three 0 (4 ∷ 5 ∷ 6 ∷ []) replies [])
hear_loop_lem_example =
    hear_loop_lem three (4 ∷ 5 ∷ 6 ∷ []) replies [] three-IsValid reads_do_not_fail
