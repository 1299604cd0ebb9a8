-- ===== src/ChatServer/Round.antt =====
-- The loop over the clients in a round of sp/select/serv.c: what it reads, keeps and closes.

use temp.Base.{
  until_nul, ℕ, zero, suc, ◌+◌, ◌-◌, ◌≤◌, ◌<◌, ◌≡◌, ◌≢◌, ◌⊎◌, inl, inr, refl, ap, none, false, List,
  ◌∷◌, arith, ltb, Bool-cases, Option-cases, get_or, hit,
}
use temp.Base.Segment
use temp.Base.Segment.{weight}
use temp.Base.History.{reads, closes}
use temp.Base.Sys.{
  Call, Env, IsOver, Returns, Returns-map, Returns-bind, Ends-Returns, pure, recv, close,
}
use temp.ChatServer.{
  Clients, removeclient, without, send_all, strstr, exit_string, hear, hear_loop, isset,
}
use temp.ChatServer.Table.{IsValid, present, removeclient_lem}
use temp.ChatServer.Chat.{Sent, send_all_lem, reply, said}

-- What a pass and the rest of the loop over the clients promise, from the place `i` of a list `c`.
pub record Heard (c : Clients) (i : ℕ) (h : List Call) (c' : Clients) (h' : List Call)
    : Type 0 where
  pub valid : IsValid c'
  pub at_most_once :
      (f : ℕ) → reads f h' ≤ reads f h + weight 0 (hit f) c.clisock_list i (c.num_chat - i)
  pub kept_or_closed : (f : ℕ) → present f c' + closes f h' ≡ present f c + closes f h

-- No `recv` fails, whatever went before.
abbrev pub NoReadFails : Env → Type 0
NoReadFails e = (f : ℕ) (h : List Call) → (e (recv f 511 ∷ h)).ret ≢ none

pub weight_first :
    (f : ℕ) (arr : List ℕ) (i n : ℕ)
    → i < n
    → weight 0 (hit f) arr i (n - i)
      ≡ hit f (get_or arr i 0) + weight 0 (hit f) arr (i + 1) (n - (i + 1))
weight_first f arr i n h =
    let e : n - i ≡ suc (n - (i + 1)) = omega arith in ap (weight 0 (hit f) arr i) e

send_all-IsOver :
    (arr : List ℕ) (j n : ℕ) (text : List ℕ) (e : Env) (h : List Call)
    → IsOver (send_all arr j n text e h)
unfolding send_all
send_all-IsOver arr j zero text e h = tt
send_all-IsOver arr j (suc n) text e h = send_all-IsOver arr (j + 1) n text e _

send_all-Returns :
    (arr : List ℕ) (j n : ℕ) (text : List ℕ) (e : Env) (h : List Call)
    → Returns
        (λ _ h'. (f : ℕ) → Sent f text (weight 0 (hit f) arr j n) h h')
        (send_all arr j n text e h)
send_all-Returns arr j n text e h =
    Ends-Returns _ (send_all arr j n text e h) (send_all-IsOver arr j n text e h)
      (send_all_lem arr j n text e h)

-- What one call of `hear` does, without the texts.
record Handled (c : Clients) (i : ℕ) (h : List Call) (c' : Clients) (h' : List Call) : Type 0 where
  valid : IsValid c'
  same_or_less : (c' ≡ c) ⊎ (c' ≡ without c i)
  one_read : (f : ℕ) → reads f h' ≡ reads f h + hit f (get_or c.clisock_list i 0)
  balance : (f : ℕ) → present f c' + closes f h' ≡ present f c + closes f h

hear-Handled :
    (c : Clients) (i : ℕ) (e : Env) (h : List Call)
    → IsValid c
    → i < c.num_chat
    → NoReadFails e
    → Returns (Handled c i h) (hear c i e h)
unfolding hear removeclient reads closes
hear-Handled c i e h v lt good =
    let g = get_or c.clisock_list i 0 in
    let (less, n, out) = removeclient_lem c i v lt in
    let gone : Handled c i h (without c i) (close g ∷ recv g 511 ∷ h) = record {
      valid = less;
      same_or_less = inr refl;
      one_read = λ f. omega arith;
      balance = λ f. omega (arith, out f);
    } in
    elim (Option-cases (reply c i e h)) [
      | inl x ↦ absurd (good g h x)
      | inr (zero, x) ↦ rw x gone
      | inr (suc k, x) ↦ elim (Bool-cases (strstr (until_nul (said c i e h (suc k))) exit_string)) [
        | inl leaves ↦ rw (x, leaves) gone
        | inr plain ↦
            rw (x, plain)
              (Returns-bind _ _ (send_all c.clisock_list 0 c.num_chat (said c i e h (suc k)))
                (λ _. pure c) e _
                (send_all-Returns c.clisock_list 0 c.num_chat (said c i e h (suc k)) e _)
                (λ _ h' s. record {
                  valid = v;
                  same_or_less = inl refl;
                  one_read = λ f. omega (arith, (s f).no_read);
                  balance = λ f. omega (arith, (s f).no_close);
                }))
      ]
    ]

abbrev pub weight_behind : ℕ → Clients → ℕ → ℕ
weight_behind f c i = weight 0 (hit f) c.clisock_list i (c.num_chat - i)

-- Removing the client at `i` leaves no more of `f` behind `i` than there was.
behind-without :
    (f : ℕ) (c : Clients) (i : ℕ)
    → IsValid c
    → i < c.num_chat
    → weight_behind f (without c i) (i + 1) ≤ weight_behind f c (i + 1)
unfolding without
behind-without f c i v lt =
    let moved =
      Segment.weight-move_last 0 (hit f) c.clisock_list i c.num_chat i (omega arith) lt
        (omega arith) in
    let first = weight_first f c.clisock_list i c.num_chat lt in
    elim (Bool-cases (ltb (i + 1) c.num_chat)) [
      | inl more ↦ omega (
        arith,
        moved,
        first,
        weight_first f (without c i).clisock_list i (c.num_chat - 1) (ground arith),
      )
      | inr last ↦
          let over : c.num_chat - 1 - (i + 1) ≡ 0 = ground arith in
          omega (arith, ap (weight 0 (hit f) (without c i).clisock_list (i + 1)) over)
    ]

Heard-pass :
    (c : Clients) (i : ℕ) (h h₁ h' : List Call) (c₁ c' : Clients)
    → IsValid c
    → i < c.num_chat
    → Handled c i h c₁ h₁
    → Heard c₁ (i + 1) h₁ c' h'
    → Heard c i h c' h'
Heard-pass c i h h₁ h' c₁ c' v lt a s = record {
  valid = s.valid;
  at_most_once = λ f. omega (
    arith,
    s.at_most_once f,
    a.one_read f,
    weight_first f c.clisock_list i c.num_chat lt,
    less f a.same_or_less,
  );
  kept_or_closed = λ f. omega (arith, s.kept_or_closed f, a.balance f);
}
  where
    less :
        (f : ℕ)
        → (c₁ ≡ c) ⊎ (c₁ ≡ without c i)
        → weight_behind f c₁ (i + 1) ≤ weight_behind f c (i + 1)
    less f (inl e) = rw e (omega arith)
    less f (inr e) = rw e (behind-without f c i v lt)

abbrev pub ServesFrom : ℕ → Type 0
ServesFrom n =
    (c : Clients) (i : ℕ) (fds : List ℕ) (e : Env) (h : List Call)
    → IsValid c
    → c.num_chat - i ≤ n
    → NoReadFails e
    → Returns (Heard c i h) (hear_loop n c i fds e h)

Heard-end : (c : Clients) (i : ℕ) (h : List Call) → IsValid c → Heard c i h c h
Heard-end c i h v = record {
  valid = v;
  at_most_once = λ f. omega arith;
  kept_or_closed = λ f. refl;
}

Heard-skip :
    (c : Clients) (i : ℕ) (h h' : List Call) (c' : Clients)
    → i < c.num_chat
    → Heard c (i + 1) h c' h'
    → Heard c i h c' h'
Heard-skip c i h h' c' lt s = record {
  valid = s.valid;
  at_most_once =
      λ f. omega (arith, s.at_most_once f, weight_first f c.clisock_list i c.num_chat lt);
  kept_or_closed = s.kept_or_closed;
}

pub hear_loop-Heard : (n : ℕ) → ServesFrom n
unfolding hear_loop
hear_loop-Heard zero c i fds e h v fuel good =
    let stop : ltb i c.num_chat ≡ false = ground arith in rw stop (Heard-end c i h v)
hear_loop-Heard (suc n) c i fds e h v fuel good = elim (Bool-cases (ltb i c.num_chat)) [
  | inr stop ↦ rw stop (Heard-end c i h v)
  | inl more ↦
      let lt : i < c.num_chat = ground arith in
      elim (Bool-cases (isset (get_or c.clisock_list i 0) fds)) [
        | inr absent ↦
            rw (more, absent)
              (Returns-map (hear_loop n c (i + 1) fds e h) (λ c' h'. Heard-skip c i h h' c' lt)
                (hear_loop-Heard n c (i + 1) fds e h v (omega arith) good))
        | inl ready ↦
            rw (more, ready)
              (Returns-bind _ _ (hear c i) (λ c₁. hear_loop n c₁ (i + 1) fds) e h
                (hear-Handled c i e h v lt good)
                (λ c₁ h₁ a.
                  Returns-map (hear_loop n c₁ (i + 1) fds e h₁)
                    (λ c' h' s. Heard-pass c i h h₁ h' c₁ c' v lt a s)
                    (hear_loop-Heard n c₁ (i + 1) fds e h₁ a.valid (fuel_left c₁ lt a.same_or_less)
                      good)))
      ]
]
  where
    fuel_left :
        (c₁ : Clients) → i < c.num_chat → (c₁ ≡ c) ⊎ (c₁ ≡ without c i) → c₁.num_chat - (i + 1) ≤ n
    fuel_left c₁ lt (inl same) = rw same (omega arith)
    fuel_left c₁ lt (inr less) = rw less (omega (arith, (removeclient_lem c i v lt).1))

-- A round over the clients of a valid list, when no read fails: the loop returns within as many
-- passes as there are clients, stays within the array and the buffer, reads a descriptor at most as often
-- as it stands in the list, and every client either stays in the list or is closed, exactly once.
pub hear_loop_lem :
    (c : Clients) (fds : List ℕ) (e : Env) (h : List Call)
    → IsValid c
    → NoReadFails e
    → Returns (Heard c 0 h) (hear_loop c.num_chat c 0 fds e h)
hear_loop_lem c fds e h v good = hear_loop-Heard c.num_chat c 0 fds e h v (omega arith) good
