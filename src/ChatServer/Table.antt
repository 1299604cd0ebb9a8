-- ===== src/ChatServer/Table.antt =====
-- The client list of sp/select/serv.c: adding, removing, and the greatest descriptor.
use native.Mathlib.Decide.{ℕ_discrete}
use temp.Base.{
  ℕ, zero, suc, ◌+◌, ◌-◌, ◌≤◌, ◌<◌, ◌≡◌, ◌⊎◌, inl, inr, refl, sym, ◌∙◌, ap, some, true, false, List,
  ◌∷◌, arith, ltb, if◌then◌else◌, Bool-cases, length, get_or, hit, length-set,
}
use temp.Base.Segment
use temp.Base.Segment.{weight}
use temp.Base.Sys.{Call, Env, ret, fault, getnameinfo}
use temp.ChatServer.{Clients, addclient, without, max_from, getmax}

abbrev pub present : ℕ → Clients → ℕ
present f c = weight 0 (hit f) c.clisock_list 0 c.num_chat

pub record IsValid (c : Clients) : Type 0 where
  pub storage : length c.clisock_list ≡ 1024
  pub fits : c.num_chat ≤ 1024

-- `removeclient` at a client takes one copy of its descriptor out of the list, keeps every other
-- client, and stays within the array.
pub removeclient_lem :
    (c : Clients) (s : ℕ)
    → IsValid c
    → s < c.num_chat
    → IsValid (without c s)
      × ((without c s).num_chat ≡ c.num_chat - 1)
      × ((f : ℕ) → present f (without c s) + hit f (get_or c.clisock_list s 0) ≡ present f c)
unfolding without
removeclient_lem c s v h = (
  record {
    storage = Segment.length-move_last 0 c.clisock_list s c.num_chat ∙ v.storage;
    fits = omega arith;
  },
  refl,
  λ f.
      let less : c.num_chat - 1 - 0 ≡ c.num_chat - 1 = omega arith in
      let all : c.num_chat - 0 ≡ c.num_chat = omega arith in
      omega (
        arith,
        Segment.weight-move_last 0 (hit f) c.clisock_list s c.num_chat 0 (omega arith) h
            (omega arith),
        ap (weight 0 (hit f) (without c s).clisock_list 0) less,
        ap (weight 0 (hit f) c.clisock_list 0) all,
      ),
)

-- `addclient` with fewer than 1024 clients, when the address of the new one can be named, adds just
-- this one and keeps the list valid.
pub addclient_lem :
    (c : Clients) (s k : ℕ) (e : Env) (h : List Call)
    → IsValid c
    → (e (getnameinfo s ∷ h)).ret ≡ some k
    → c.num_chat < 1024
    → (c' : Clients) × (addclient c s e h ≡ ret c' (getnameinfo s ∷ h))
      × IsValid c'
      × ((f : ℕ) → present f c' ≡ present f c + hit f s)
unfolding addclient
addclient_lem c s k e h v x room =
    let test : ltb c.num_chat 1024 ≡ true = ground arith in
    (
      _,
      rw (x, test) refl,
      record { storage = length-set c.clisock_list c.num_chat s ∙ v.storage; fits = omega arith },
      λ f. Segment.weight_push 0 (hit f) c.clisock_list c.num_chat s (omega (arith, v.storage)),
    )

-- With 1024 clients `addclient`, which has no test for it, writes behind the array.
pub addclient_overrun :
    (c : Clients) (s k : ℕ) (e : Env) (h : List Call)
    → (e (getnameinfo s ∷ h)).ret ≡ some k
    → c.num_chat ≡ 1024
    → addclient c s e h ≡ fault (getnameinfo s ∷ h)
unfolding addclient
addclient_overrun c s k e h x full =
    let test : ltb c.num_chat 1024 ≡ false = ground arith in rw (x, test) refl

-- `max_from` is above its start and every client, and is one of them.
max_from_lem :
    (arr : List ℕ) (i n m : ℕ)
    → (m ≤ max_from arr i n m)
      × ((k : ℕ) → i ≤ k → k < i + n → get_or arr k 0 ≤ max_from arr i n m)
      × ((max_from arr i n m ≡ m)
          ⊎ ((k : ℕ) × (i ≤ k) × (k < i + n) × (max_from arr i n m ≡ get_or arr k 0)))
unfolding max_from
max_from_lem arr i zero m = (omega arith, (λ k lo hi. absurd (omega arith)), inl refl)
max_from_lem arr i (suc n) m =
    let s = get_or arr i 0 in
    let m' = if ltb m s then s else m in
    let (low, above, one) = max_from_lem arr (i + 1) n m' in
    (
      ground (arith, low),
      (λ k lo hi. elim (ℕ_discrete i k) [
        | yes e ↦
            let at : get_or arr k 0 ≡ s = ap (λ p. get_or arr p 0) (sym e) in
            ground (arith, at, low)
        | no ne ↦ above k (omega arith) (omega arith)
      ]),
      elim one [
        | inl same ↦ elim (Bool-cases (ltb m s)) [
          | inl less ↦ inr (i, omega arith, omega arith, same ∙ rw less)
          | inr more ↦ inl (same ∙ rw more)
        ]
        | inr (k, lo, hi, at) ↦ inr (k, omega arith, omega arith, at)
      ],
    )

-- The bound that `main` gives to `select` is one more than a number which no descriptor of the set
-- exceeds, neither the listener nor a client, and which is one of them.
pub getmax_lem :
    (listen_sock : ℕ) (c : Clients) (k : ℕ)
    → k < c.num_chat
    → (listen_sock ≤ getmax listen_sock c)
      × (get_or c.clisock_list k 0 ≤ getmax listen_sock c)
      × ((getmax listen_sock c ≡ listen_sock)
          ⊎ ((m : ℕ) × (m < c.num_chat) × (getmax listen_sock c ≡ get_or c.clisock_list m 0)))
unfolding getmax
getmax_lem listen_sock c k lt =
    let (low, above, one) = max_from_lem c.clisock_list 0 c.num_chat listen_sock in
    (
      low,
      above k (omega arith) (omega arith),
      elim one [ inl same ↦ inl same | inr (m, lo, hi, at) ↦ inr (m, omega arith, at) ],
    )
