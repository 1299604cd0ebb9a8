-- ===== src/PollServer/Dispatch.antt =====
-- The loop of ALSP/io_poll.c over the sockets that `poll` reports: although it removes entries from
-- the table while it walks it, each readable socket is read once, and each removed one is closed.
use temp.Base.{
  ℕ, zero, suc, ◌+◌, ◌-◌, ◌≤◌, ◌<◌, ◌≡◌, inl, inr, refl, ap, true, false, List, ◌∷◌, arith, ltb,
  ◌&&◌, if◌then◌else◌, Bool-cases, Option-cases, get_or, hit,
}
use native.Mathlib.Decide.{ℕ_discrete}
use temp.Base.Segment
use temp.Base.Segment.{weight}
use temp.Base.History.{reads, closes}
use temp.Base.Sys.{Call, Env, Ends, Out, IsOver, Ends-map, recv, recv_oob, close}
use temp.PollServer.{Pollfd, blank, Table, drop_entry, del_socket, serve_loop}
use temp.PollServer.Sockets.{
  IsValid, live, find_fd-live, weight-drop_entry, live-drop_entry, drop_entry-IsValid,
  cnt-drop_entry,
}

-- An entry with POLLIN, as a weight for the descriptor `f`.
abbrev pub readable : ℕ → Pollfd → ℕ
readable f p = if p.revents.pollin then hit f p.fd else 0

-- An entry that the loop counts down `ret_poll` for.
abbrev pub counted : Pollfd → ℕ
counted p =
    if p.revents.pollin
    then 1
    else if p.revents.pollpri
    then 0
    else if p.revents.pollerr
    then 1
    else if p.revents.pollnval
    then 1
    else 0

-- What is promised of the table and the history at the end, from a table `t` and a history `h`.
pub record Served (t : Table) (i : ℕ) (h : List Call) (t' : Table) (h' : List Call) : Type 0 where
  pub valid : IsValid t'
  pub each_read :
      (f : ℕ) → reads f h' ≡ reads f h + weight blank (readable f) t.pollfds i (t.cnt_fd_socket - i)
  pub kept_or_closed : (f : ℕ) → live f t' + closes f h' ≡ live f t + closes f h

abbrev pub AllServed : Table → ℕ → List Call → Out Table → Type 0
AllServed t i h = Ends (Served t i h) (λ _ _. ⊥)

weight_first :
    (w : Pollfd → ℕ) (arr : List Pollfd) (i n : ℕ)
    → i < n
    → weight blank w arr i (n - i)
      ≡ w (get_or arr i blank) + weight blank w arr (i + 1) (n - (i + 1))
weight_first w arr i n h =
    let e : n - i ≡ suc (n - (i + 1)) = omega arith in ap (weight blank w arr i) e

-- One pass that leaves the table as it is and may read the socket at `i`.
Served-pass :
    (t : Table) (i : ℕ) (h h₁ h' : List Call) (t' : Table)
    → i < t.cnt_fd_socket
    → ((f : ℕ) → reads f h₁ ≡ reads f h + readable f (get_or t.pollfds i blank))
    → ((f : ℕ) → closes f h₁ ≡ closes f h)
    → Served t (i + 1) h₁ t' h'
    → Served t i h t' h'
Served-pass t i h h₁ h' t' lt r c s = record {
  valid = s.valid;
  each_read = λ f.
      omega (arith, s.each_read f, r f, weight_first (readable f) t.pollfds i t.cnt_fd_socket lt);
  kept_or_closed = λ f. omega (arith, s.kept_or_closed f, c f);
}

-- One pass that reads the socket at `i`, closes it and drops its entry.
Served-drop :
    (t : Table) (i : ℕ) (h h₁ h' : List Call) (t' : Table)
    → IsValid t
    → i < t.cnt_fd_socket
    → ((f : ℕ) → reads f h₁ ≡ reads f h + readable f (get_or t.pollfds i blank))
    → ((f : ℕ) → closes f h₁ ≡ closes f h + hit f (get_or t.pollfds i blank).fd)
    → Served (drop_entry t i) i h₁ t' h'
    → Served t i h t' h'
Served-drop t i h h₁ h' t' v lt r c s = record {
  valid = s.valid;
  each_read = λ f.
      let size : t.cnt_fd_socket - 1 - i ≡ (drop_entry t i).cnt_fd_socket - i =
        omega (arith, cnt-drop_entry t i) in
      omega (
        arith,
        s.each_read f,
        r f,
        weight-drop_entry (readable f) t i i v.storage v.fits (omega arith) lt,
        ap (weight blank (readable f) (drop_entry t i).pollfds i) size,
      );
  kept_or_closed = λ f. omega (arith, s.kept_or_closed f, c f, live-drop_entry f t i v lt);
}

-- At the end of the loop nothing readable is left, when `ret_poll` counted at least the entries that
-- the loop counts down for.
readable-le-counted : (f : ℕ) (p : Pollfd) → readable f p ≤ counted p
readable-le-counted f p = ground arith

Served-end :
    (t : Table) (i ready : ℕ) (h : List Call)
    → IsValid t
    → weight blank counted t.pollfds i (t.cnt_fd_socket - i) ≤ ready
    → (ltb i t.cnt_fd_socket && ltb 0 ready) ≡ false
    → Served t i h t h
Served-end t i ready h v enough stop = record {
  valid = v;
  each_read = λ f.
      let all =
        Segment.weight_mono blank (readable f) counted t.pollfds i (t.cnt_fd_socket - i)
          (readable-le-counted f) in
      elim (ℕ_discrete ready 0) [
        | yes none_left ↦ omega (arith, all)
        | no more ↦
            let over : t.cnt_fd_socket - i ≡ 0 = ground arith in
            omega (arith, ap (weight blank (readable f) t.pollfds i) over)
      ];
  kept_or_closed = λ f. refl;
}

abbrev Enough : Table → ℕ → ℕ → Type 0
Enough t i ready = weight blank counted t.pollfds i (t.cnt_fd_socket - i) ≤ ready

Enough-pass :
    (t : Table) (i ready ready' : ℕ)
    → i < t.cnt_fd_socket
    → ready ≤ ready' + counted (get_or t.pollfds i blank)
    → Enough t i ready
    → Enough t (i + 1) ready'
Enough-pass t i ready ready' lt le h =
    omega (arith, weight_first counted t.pollfds i t.cnt_fd_socket lt)

Enough-drop :
    (t : Table) (i ready : ℕ)
    → IsValid t
    → i < t.cnt_fd_socket
    → counted (get_or t.pollfds i blank) ≡ 1
    → Enough t i ready
    → Enough (drop_entry t i) i (ready - 1)
Enough-drop t i ready v lt one h =
    let size : t.cnt_fd_socket - 1 - i ≡ (drop_entry t i).cnt_fd_socket - i =
      omega (arith, cnt-drop_entry t i) in
    omega (
      arith,
      weight-drop_entry counted t i i v.storage v.fits (omega arith) lt,
      ap (weight blank counted (drop_entry t i).pollfds i) size,
    )

abbrev Done : Table → ℕ → List Call → Out Table → Type 0
Done t i h o = AllServed t i h o × IsOver o

abbrev ServesFrom : ℕ → Type 0
ServesFrom n =
    (t : Table) (i ready : ℕ) (e : Env) (h : List Call)
    → IsValid t
    → t.cnt_fd_socket - i ≤ n
    → Enough t i ready
    → Done t i h (serve_loop n t i ready e h)

Done-pass :
    (t : Table) (i : ℕ) (h h₁ : List Call) (o : Out Table)
    → i < t.cnt_fd_socket
    → ((f : ℕ) → reads f h₁ ≡ reads f h + readable f (get_or t.pollfds i blank))
    → ((f : ℕ) → closes f h₁ ≡ closes f h)
    → Done t (i + 1) h₁ o
    → Done t i h o
Done-pass t i h h₁ o lt r c d =
    (Ends-map o (λ t' h'. Served-pass t i h h₁ h' t' lt r c) (λ _ _ x. x) d.0, d.1)

Done-drop :
    (t : Table) (i : ℕ) (h h₁ : List Call) (o : Out Table)
    → IsValid t
    → i < t.cnt_fd_socket
    → ((f : ℕ) → reads f h₁ ≡ reads f h + readable f (get_or t.pollfds i blank))
    → ((f : ℕ) → closes f h₁ ≡ closes f h + hit f (get_or t.pollfds i blank).fd)
    → Done (drop_entry t i) i h₁ o
    → Done t i h o
Done-drop t i h h₁ o v lt r c d =
    (Ends-map o (λ t' h'. Served-drop t i h h₁ h' t' v lt r c) (λ _ _ x. x) d.0, d.1)

-- The pass at an entry with POLLIN.
readable_pass :
    (n : ℕ) (t : Table) (i ready : ℕ) (e : Env) (h : List Call)
    → ServesFrom n
    → IsValid t
    → t.cnt_fd_socket - i ≤ suc n
    → Enough t i ready
    → (ltb i t.cnt_fd_socket && ltb 0 ready) ≡ true
    → (get_or t.pollfds i blank).revents.pollin ≡ true
    → Done t i h (serve_loop (suc n) t i ready e h)
unfolding serve_loop del_socket reads closes
readable_pass n t i ready e h rec v fuel enough guard pin =
    let p = get_or t.pollfds i blank in
    let h₁ = recv p.fd 1024 ∷ h in
    let lt : i < t.cnt_fd_socket = ground arith in
    let one : counted p ≡ 1 = rw pin in
    let read : (f : ℕ) → reads f h₁ ≡ reads f h + readable f p = λ f. rw pin (omega arith) in
    let stay =
      Done-pass t i h h₁ (serve_loop n t (i + 1) (ready - 1) e h₁) lt read (λ f. refl)
        (rec t (i + 1) (ready - 1) e h₁ v (omega arith)
          (Enough-pass t i ready (ready - 1) lt (omega arith) enough)) in
    let gone =
      Done-drop t i h (close p.fd ∷ h₁)
        (serve_loop n (drop_entry t i) i (ready - 1) e (close p.fd ∷ h₁)) v lt read
        (λ f. omega arith)
        (rec (drop_entry t i) i (ready - 1) e (close p.fd ∷ h₁) (drop_entry-IsValid t i v lt)
          (omega (arith, cnt-drop_entry t i)) (Enough-drop t i ready v lt one enough)) in
    rw (guard, pin)
      (elim (Option-cases (e h₁).ret) [
        | inl x ↦ rw x stay
        | inr (zero, x) ↦ rw (x, find_fd-live t i v lt) gone
        | inr (suc k, x) ↦ rw x stay
      ])

-- The pass at an entry with POLLPRI, POLLERR, POLLNVAL or no event.
quiet_pass :
    (n : ℕ) (t : Table) (i ready : ℕ) (e : Env) (h : List Call)
    → ServesFrom n
    → IsValid t
    → t.cnt_fd_socket - i ≤ suc n
    → Enough t i ready
    → (ltb i t.cnt_fd_socket && ltb 0 ready) ≡ true
    → (get_or t.pollfds i blank).revents.pollin ≡ false
    → Done t i h (serve_loop (suc n) t i ready e h)
unfolding serve_loop reads closes
quiet_pass n t i ready e h rec v fuel enough guard pin =
    let p = get_or t.pollfds i blank in
    let lt : i < t.cnt_fd_socket = ground arith in
    let h₁ = recv_oob p.fd ∷ h in
    let unread : (f : ℕ) → reads f h ≡ reads f h + readable f p = λ f. rw pin (omega arith) in
    let urgent : Done t i h (serve_loop n t (i + 1) ready e h₁) =
      Done-pass t i h h₁ (serve_loop n t (i + 1) ready e h₁) lt unread (λ f. refl)
        (rec t (i + 1) ready e h₁ v (omega arith)
          (Enough-pass t i ready ready lt (omega arith) enough)) in
    let failed : counted p ≡ 1 → Done t i h (serve_loop n t (i + 1) (ready - 1) e h) = λ one.
      Done-pass t i h h (serve_loop n t (i + 1) (ready - 1) e h) lt unread (λ f. refl)
        (rec t (i + 1) (ready - 1) e h v (omega arith)
          (Enough-pass t i ready (ready - 1) lt (omega arith) enough)) in
    let silent : Done t i h (serve_loop n t (i + 1) ready e h) =
      Done-pass t i h h (serve_loop n t (i + 1) ready e h) lt unread (λ f. refl)
        (rec t (i + 1) ready e h v (omega arith)
          (Enough-pass t i ready ready lt (omega arith) enough)) in
    rw (guard, pin)
      (elim (Bool-cases p.revents.pollpri) [
        | inl pri ↦ rw pri urgent
        | inr pri ↦ elim (Bool-cases p.revents.pollerr) [
          | inl err ↦ rw (pri, err) (failed (rw (pin, pri, err)))
          | inr err ↦ elim (Bool-cases p.revents.pollnval) [
            | inl nval ↦ rw (pri, err, nval) (failed (rw (pin, pri, err, nval)))
            | inr nval ↦ rw (pri, err, nval) silent
          ]
        ]
      ])

-- From any place of the loop, with enough passes.
serve_loop-Done : (n : ℕ) → ServesFrom n
unfolding serve_loop reads closes
serve_loop-Done zero t i ready e h v fuel enough =
    let stop : (ltb i t.cnt_fd_socket && ltb 0 ready) ≡ false = ground arith in
    rw stop (Served-end t i ready h v enough stop, tt)
serve_loop-Done (suc n) t i ready e h v fuel enough =
    elim (Bool-cases (ltb i t.cnt_fd_socket && ltb 0 ready)) [
      | inl guard ↦ elim (Bool-cases (get_or t.pollfds i blank).revents.pollin) [
        | inl pin ↦ readable_pass n t i ready e h (serve_loop-Done n) v fuel enough guard pin
        | inr pin ↦ quiet_pass n t i ready e h (serve_loop-Done n) v fuel enough guard pin
      ]
      | inr stop ↦ rw stop (Served-end t i ready h v enough stop, tt)
    ]

-- A round of `io_poll.c` whose listener is quiet: in a valid table, and with a `ret_poll` that counts
-- at least the sockets behind the listener with POLLIN, or with POLLERR or POLLNVAL alone, the loop
-- ends within as many passes as there are sockets and does not end the process. Every socket with
-- POLLIN behind the listener is read exactly once, although entries are removed and moved meanwhile;
-- the table stays valid; and each descriptor stays in the table or is closed exactly once.
pub serve_loop_lem :
    (t : Table) (ready : ℕ) (e : Env) (h : List Call)
    → IsValid t
    → weight blank counted t.pollfds 1 (t.cnt_fd_socket - 1) ≤ ready
    → AllServed t 1 h (serve_loop t.cnt_fd_socket t 1 ready e h)
      × IsOver (serve_loop t.cnt_fd_socket t 1 ready e h)
serve_loop_lem t ready e h v enough =
    serve_loop-Done t.cnt_fd_socket t 1 ready e h v (omega arith) enough
