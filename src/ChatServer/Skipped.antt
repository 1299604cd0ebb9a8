-- ===== src/ChatServer/Skipped.antt =====
-- The client that `removeclient` of sp/select/serv.c moves forward in the middle of a round.

use temp.Base.{
  ℕ, suc, ◌+◌, ◌-◌, ◌≤◌, ◌<◌, ◌≡◌, ◌≢◌, ◌∙◌, some, true, false, List, ◌∷◌, arith, ltb, ◌==◌,
  get_or-set_self, get_or, hit,
}
use temp.Base.Segment
use temp.Base.Segment.{weight}
use temp.Base.History.{reads}
use temp.Base.Sys.{Call, Env, Returns, Returns-map, recv, close}
use temp.ChatServer.{Clients, without, hear, hear_loop, isset}
use temp.ChatServer.Table.{IsValid, removeclient_lem}
use temp.ChatServer.Chat.{reply, hear_closed}
use temp.ChatServer.Round.{NoReadFails, weight_first, weight_behind, hear_loop-Heard}

hit_at : (f g : ℕ) → g ≡ f → hit f g ≡ 1
hit_at f g e = ground arith

-- A client at the end of the list that is moved forward to the place `i` is not behind `i` any more.
moved-behind :
    (f : ℕ) (c : Clients) (i : ℕ)
    → IsValid c
    → i + 1 < c.num_chat
    → get_or c.clisock_list (c.num_chat - 1) 0 ≡ f
    → weight_behind f (without c i) (i + 1) + 1 ≤ weight_behind f c (i + 1)
unfolding without
moved-behind f c i v lt at =
    let moved =
      Segment.weight-move_last 0 (hit f) c.clisock_list i c.num_chat i (omega arith) (omega arith)
        (omega arith) in
    let not_last : (i == c.num_chat - 1) ≡ false = ground arith in
    let here : get_or (without c i).clisock_list i 0 ≡ f = rw not_last (
      get_or-set_self c.clisock_list i (get_or c.clisock_list (c.num_chat - 1) 0) 0 (omega arith)
      ∙ at) in
    omega (
      arith,
      moved,
      weight_first f c.clisock_list i c.num_chat (omega arith),
      weight_first f (without c i).clisock_list i (c.num_chat - 1) (omega arith),
      hit_at f (get_or (without c i).clisock_list i 0) here,
    )

-- When the client at place `i` has closed its connection, the client `f` that stands last is moved to
-- its place and skipped: if no other place behind `i` holds `f`, the rest of the round does not read
-- `f`, also when `select` reported it as ready.
moved_client_skipped :
    (c : Clients) (i f n : ℕ) (fds : List ℕ) (e : Env) (h : List Call)
    → IsValid c
    → NoReadFails e
    → i + 1 < c.num_chat
    → get_or c.clisock_list (c.num_chat - 1) 0 ≡ f
    → get_or c.clisock_list i 0 ≢ f
    → weight_behind f c (i + 1) ≡ 1
    → c.num_chat - i ≤ suc n
    → isset (get_or c.clisock_list i 0) fds ≡ true
    → reply c i e h ≡ some 0
    → Returns (λ c' h'. reads f h' ≤ reads f h) (hear_loop (suc n) c i fds e h)
unfolding hear_loop reads hear
moved_client_skipped c i f n fds e h v good lt at ne one fuel ready closed =
    let more : ltb i c.num_chat ≡ true = ground arith in
    let g = get_or c.clisock_list i 0 in
    let (valid, size, _) = removeclient_lem c i v (omega arith) in
    let other : hit f g ≡ 0 = ground arith in
    rw (more, ready, hear_closed c i e h closed)
      (Returns-map (hear_loop n (without c i) (i + 1) fds e (close g ∷ recv g 511 ∷ h))
        (λ c' h' s. omega (arith, s.at_most_once f, moved-behind f c i v lt at))
        (hear_loop-Heard n (without c i) (i + 1) fds e (close g ∷ recv g 511 ∷ h) valid
          (omega arith) good))
