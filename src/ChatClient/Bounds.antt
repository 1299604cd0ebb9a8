-- ===== src/ChatClient/Bounds.antt =====
-- The buffer of sp/select/clnt.c, and how the client ends.
use temp.Base.{until_nul, ℕ, ◌≤◌, ◌≡◌, ◌≢◌, true, none, some, List, ◌∷◌, ◌++◌, take, length}
use temp.Base.Sys.{Call, Env, Ends, M, getaddrinfo, socket, connect, recv, fgets, send, close}
use temp.ChatServer.{exit_string, strstr}
use temp.ChatClient.{prompt}

-- The line that the user has typed, up to its first NUL.
abbrev pub typed : Env → List Call → List ℕ
typed e h = until_nul (take 510 (e (fgets 511 ∷ h)).bytes)

-- The socket `s` was made and connected.
abbrev pub Connected : Env → List Call → ℕ → Type 0
Connected e h₀ s =
    ((e (socket ∷ getaddrinfo ∷ h₀)).ret ≡ some s)
    × ((b : ℕ) × ((e (connect s ∷ socket ∷ getaddrinfo ∷ h₀)).ret ≡ some b))

-- An end of the client: at once, without its three arguments; just after a call that failed; or when the
-- user has sent a line with "exit" in it to the server, and the socket is closed.
pub data Ended (argc : ℕ) (name : List ℕ) (e : Env) (h₀ : List Call) : ℕ → List Call → Type 0 where
  misused : argc ≢ 4 → Ended argc name e h₀ 1 h₀
  failed : (h : List Call) → (e h).ret ≡ none → Ended argc name e h₀ 1 h
  left :
      (s k : ℕ) (h : List Call)
      → Connected e h₀ s
      → (e (fgets 511 ∷ h)).ret ≡ some k
      → strstr (typed e h) exit_string ≡ true
      → Ended argc name e h₀ 0 (close s ∷ send s (prompt name ++ typed e h) ∷ fgets 511 ∷ h)

-- `recv` gives at most the bytes asked for.
abbrev pub RecvBounded : Env → Type 0
RecvBounded e = (s m k : ℕ) (h : List Call) → (e (recv s m ∷ h)).ret ≡ some k → k ≤ m

module _ (argc : ℕ) (name : List ℕ) (short : length (prompt name) ≤ 20) (e : Env)
    (bounded : RecvBounded e) (h₀ : List Call) where
  abbrev Safe : {A : Type 0} → (A → List Call → Type 0) → M A → List Call → Type 0
  Safe P m h = Ends P (Ended argc name e h₀) (m e h)
