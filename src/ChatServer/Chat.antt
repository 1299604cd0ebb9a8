-- ===== src/ChatServer/Chat.antt =====
-- What a round of sp/select/serv.c does for its clients.

use temp.Base.{
  until_nul, ℕ, zero, suc, ◌+◌, ◌≡◌, refl, Option, none, some, true, false, List, ◌∷◌, arith,
  get_or, hit, take,
}
use temp.Base.Segment.{weight}
use temp.Base.History.{reads, closes, delivered, delivered_send}
use temp.Base.Sys.{Call, Env, Ends, Ends-map, Ends-bind, pure, ret, fault, recv, close}
use temp.ChatServer.{Clients, removeclient, without, send_all, strstr, exit_string, hear}
use temp.ChatServer.Table.{present}

-- `send_all` sends the text once for each place of a client, and does nothing else that counts here.
pub record Sent (f : ℕ) (text : List ℕ) (times : ℕ) (h h' : List Call) : Type 0 where
  pub sends : delivered f text h' ≡ delivered f text h + times
  pub no_read : reads f h' ≡ reads f h
  pub no_close : closes f h' ≡ closes f h

pub send_all_lem :
    (arr : List ℕ) (j n : ℕ) (text : List ℕ) (e : Env) (h : List Call)
    → Ends
        (λ _ h'. (f : ℕ) → Sent f text (weight 0 (hit f) arr j n) h h')
        (λ _ _. ⊥)
        (send_all arr j n text e h)
unfolding send_all reads closes
send_all_lem arr j zero text e h =
    λ f. record { sends = omega arith; no_read = refl; no_close = refl }
send_all_lem arr j (suc n) text e h =
    Ends-map (send_all arr (j + 1) n text e _)
      (λ _ h' s f. record {
        sends = omega (arith, (s f).sends, delivered_send f (get_or arr j 0) text h);
        no_read = (s f).no_read;
        no_close = (s f).no_close;
      })
      (λ _ _ x. x) (send_all_lem arr (j + 1) n text e _)

-- The outcomes of `hear` for the client at place `i`, after a read that gave `k` bytes or failed.
abbrev pub reply : Clients → ℕ → Env → List Call → Option ℕ
reply c i e h = (e (recv (get_or c.clisock_list i 0) 511 ∷ h)).ret

abbrev pub said : Clients → ℕ → Env → List Call → ℕ → List ℕ
said c i e h k = take k (e (recv (get_or c.clisock_list i 0) 511 ∷ h)).bytes

-- A text that is read from a client and has no "exit" before its first NUL goes once to every client
-- of the list, the one that said it included, and the list stays as it is.
pub hear_says :
    (c : Clients) (i k : ℕ) (e : Env) (h : List Call)
    → reply c i e h ≡ some (suc k)
    → strstr (until_nul (said c i e h (suc k))) exit_string ≡ false
    → Ends
        (λ c' h'.
          (c' ≡ c)
          × ((f : ℕ)
              → Sent f
                  (said c i e h (suc k))
                  (present f c)
                  (recv (get_or c.clisock_list i 0) 511 ∷ h)
                  h'))
        (λ _ _. ⊥)
        (hear c i e h)
unfolding hear
hear_says c i k e h x plain =
    rw (x, plain)
      (Ends-bind _ _ _ (send_all c.clisock_list 0 c.num_chat (said c i e h (suc k))) (λ _. pure c) e
        _ (send_all_lem c.clisock_list 0 c.num_chat (said c i e h (suc k)) e _)
        (λ _ h' s. (refl, s)))

-- A text with "exit" in it closes the client that said it and takes just its place out of the list.
pub hear_exit :
    (c : Clients) (i k : ℕ) (e : Env) (h : List Call)
    → reply c i e h ≡ some (suc k)
    → strstr (until_nul (said c i e h (suc k))) exit_string ≡ true
    → hear c i e h
      ≡ ret
          (without c i)
          (close (get_or c.clisock_list i 0) ∷ recv (get_or c.clisock_list i 0) 511 ∷ h)
unfolding hear removeclient
hear_exit c i k e h x leaves = rw (x, leaves) refl

pub hear_closed :
    (c : Clients) (i : ℕ) (e : Env) (h : List Call)
    → reply c i e h ≡ some 0
    → hear c i e h
      ≡ ret
          (without c i)
          (close (get_or c.clisock_list i 0) ∷ recv (get_or c.clisock_list i 0) 511 ∷ h)
unfolding hear removeclient
hear_closed c i e h x = rw x refl

-- A read that fails makes the server write before its buffer.
pub hear_fails :
    (c : Clients) (i : ℕ) (e : Env) (h : List Call)
    → reply c i e h ≡ none
    → hear c i e h ≡ fault (recv (get_or c.clisock_list i 0) 511 ∷ h)
unfolding hear
hear_fails c i e h x = rw x refl
