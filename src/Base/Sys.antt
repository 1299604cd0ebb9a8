-- ===== src/Base/Sys.antt =====
-- The operating system as an environment: a program issues calls and reads their replies.
-- The kernel and the C library are no code of the repository, so an environment is any function
-- from the history of calls, the present one first, to a reply. A run keeps that history.
use mathlib.Core.Path.{◌≡◌, ap}
use Prim.Native.Nat.{ℕ}
use mathlib.Core.Option.{Option}
use mathlib.Core.List.{List, ◌∷◌}

-- The error numbers that the programs tell apart.
pub data Errno : Type 0 where
  eintr eagain eexist enoent einval ebusy other : Errno

-- The calls, with the arguments on which the programs' results depend.
pub data Call : Type 0 where
  getaddrinfo socket fork pause getline epoll_create timerfd_create getpid : Call
  setsockopt bind listen accept close getfl setnb linger : ℕ → Call
  epoll_add epoll_del : ℕ → ℕ → Call
  epoll_wait epoll_events : ℕ → Call
  timerfd_settime : ℕ → ℕ → Call
  malloc realloc : ℕ → Call
  free : Call
  recv : ℕ → ℕ → Call
  send send_oob : ℕ → List ℕ → Call
  read : ℕ → ℕ → Call
  write : ℕ → List ℕ → Call
  open_file : List ℕ → Call
  mkfifo : List ℕ → Call
  select poll : ℕ → Call
  recv_oob connect : ℕ → Call
  cond_broadcast : Call
  getnameinfo getsockname fgets : ℕ → Call
  waitpid : ℕ → Call
  exec : List ℕ → Call
  ftok ipc_create ipc_open ipc_rmid shmat : ℕ → Call
  ipc_getval : ℕ → ℕ → Call
  semctl_setall : ℕ → List ℕ → Call
  semop : ℕ → ℕ → ℕ → Call
  umask getrlimit setsid chdir openlog pipe posix_openpt isatty atexit getppid sigcaught : Call
  syslog : List ℕ → Call
  getfd dup kill sleep clrnb getsockopt grantpt unlockpt ptsname tcgetattr tcsetattr tiocgwinsz
        tiocswinsz tty_raw :
      ℕ → Call
  setfd dup2 sigaction setsig : ℕ → ℕ → Call
  setown : ℕ → Call
  sigwaitinfo : Call
  sigprocmask pthread_create pthread_join : ℕ → Call
  sockatmark : ℕ → Call
  signalfd waitid fclose feof ferror getchar popen pclose regcomp getenv : Call
  sysconf gethostname : Call
  fopen remove regexec fputs : List ℕ → Call
  mq_create mq_open mq_unlink mq_getattr mq_close : Call
  mq_send : ℕ → List ℕ → ℕ → Call
  msgsnd : ℕ → ℕ → List ℕ → Call
  mq_notify signal : ℕ → Call
  mq_receive msgrcv : ℕ → ℕ → Call

-- `ret` is the value returned, and `none` stands for -1 or NULL; `errno` is read after a failure;
-- `bytes` is what a call writes through a pointer argument.
pub record Reply : Type 0 where
  pub ret : Option ℕ
  pub errno : Errno
  pub bytes : List ℕ

abbrev pub Env : Type 0
Env = List Call → Reply

-- A run returns, or ends the process with a status, or is still running when its rounds are over, or
-- comes to an access out of bounds, for which C defines no behaviour.
pub data Out (A : Type 0) : Type 0 where
  ret : A → List Call → Out A
  exit : ℕ → List Call → Out A
  running : List Call → Out A
  fault : List Call → Out A

abbrev pub M : Type 0 → Type 0
M A = Env → List Call → Out A

abbrev pub pure : {A : Type 0} → A → M A
pure a e t = ret a t

abbrev pub halt : {A : Type 0} → ℕ → M A
halt c e t = exit c t

abbrev pub unfinished : {A : Type 0} → M A
unfinished e t = running t

abbrev pub crash : {A : Type 0} → M A
crash e t = fault t

abbrev pub sys : Call → M Reply
sys c e t = ret (e (c ∷ t)) (c ∷ t)

infixl 5 ◌>>=◌ ◌>>◌
abbrev pub ◌>>=◌ : {A B : Type 0} → M A → (A → M B) → M B
◌>>=◌ m f e t = elim (m e t) [
  | ret a t' ↦ f a e t'
  | exit c t' ↦ exit c t'
  | running t' ↦ running t'
  | fault t' ↦ fault t'
]

abbrev pub ◌>>◌ : {A B : Type 0} → M A → M B → M B
m >> k = m >>= λ _. k

-- The history of calls at the end of a run, the latest first.
abbrev pub history : {A : Type 0} → Out A → List Call
history (ret a t) = t
history (exit c t) = t
history (running t) = t
history (fault t) = t

-- What a run promises: `P` of a value returned, `Q` of an exit status, and never a fault.
abbrev pub Ends :
    {A : Type 0} → (A → List Call → Type 0) → (ℕ → List Call → Type 0) → Out A → Type 0
Ends P Q (ret a t) = P a t
Ends P Q (exit c t) = Q c t
Ends P Q (running t) = Unit
Ends P Q (fault t) = ⊥

-- A promise may be weakened.
pub Ends-map :
    {A : Type 0} {P P' : A → List Call → Type 0} {Q Q' : ℕ → List Call → Type 0} (o : Out A)
    → ((a : A) (t : List Call) → P a t → P' a t)
    → ((c : ℕ) (t : List Call) → Q c t → Q' c t)
    → Ends P Q o
    → Ends P' Q' o
Ends-map (ret a t) f g h = f a t h
Ends-map (exit c t) f g h = g c t h
Ends-map (running t) f g h = tt
Ends-map (fault t) f g h = h

-- A run that always comes to an end.
abbrev pub IsOver : {A : Type 0} → Out A → Type 0
IsOver (ret a t) = Unit
IsOver (exit c t) = Unit
IsOver (running t) = ⊥
IsOver (fault t) = Unit

-- A run that always comes to an end, by returning, with `P` of what it returns.
abbrev pub Returns : {A : Type 0} → (A → List Call → Type 0) → Out A → Type 0
Returns P (ret a t) = P a t
Returns P (exit c t) = ⊥
Returns P (running t) = ⊥
Returns P (fault t) = ⊥

pub Returns-map :
    {A : Type 0} {P P' : A → List Call → Type 0} (o : Out A)
    → ((a : A) (t : List Call) → P a t → P' a t)
    → Returns P o
    → Returns P' o
Returns-map (ret a t) f h = f a t h
Returns-map (exit c t) f h = h
Returns-map (running t) f h = h
Returns-map (fault t) f h = h

-- A run that ends, and neither ends the process nor faults, returns.
pub Ends-Returns :
    {A : Type 0} (P : A → List Call → Type 0) (o : Out A)
    → IsOver o
    → Ends P (λ _ _. ⊥) o
    → Returns P o
Ends-Returns P (ret a t) over h = h
Ends-Returns P (exit c t) over h = h
Ends-Returns P (running t) over h = over
Ends-Returns P (fault t) over h = h

pub Returns-bind :
    {A B : Type 0} (P : A → List Call → Type 0) (P' : B → List Call → Type 0) (m : M A)
    (f : A → M B) (e : Env) (t : List Call)
    → Returns P (m e t)
    → ((a : A) (t' : List Call) → P a t' → Returns P' (f a e t'))
    → Returns P' ((m >>= f) e t)
Returns-bind {A} {B} P P' m f e t h g = go (m e t) h
  where
    go :
        (o : Out A)
        → Returns P o
        → Returns P' (elim o [
          | ret a t' ↦ f a e t'
          | exit c t' ↦ exit c t'
          | running t' ↦ running t'
          | fault t' ↦ fault t'
        ])
    go (ret a t') h' = g a t' h'
    go (exit c t') h' = absurd h'
    go (running t') h' = absurd h'
    go (fault t') h' = absurd h'

-- The promise of a run that goes on with `f`, from that of its first part.
pub Ends-bind :
    {A B : Type 0} (P : A → List Call → Type 0) (P' : B → List Call → Type 0)
    (Q : ℕ → List Call → Type 0) (m : M A) (f : A → M B) (e : Env) (t : List Call)
    → Ends P Q (m e t)
    → ((a : A) (t' : List Call) → P a t' → Ends P' Q (f a e t'))
    → Ends P' Q ((m >>= f) e t)
Ends-bind {A} {B} P P' Q m f e t h g = go (m e t) h
  where
    go :
        (o : Out A)
        → Ends P Q o
        → Ends P' Q (elim o [
          | ret a t' ↦ f a e t'
          | exit c t' ↦ exit c t'
          | running t' ↦ running t'
          | fault t' ↦ fault t'
        ])
    go (ret a t') h' = g a t' h'
    go (exit c t') h' = h'
    go (running t') h' = tt
    go (fault t') h' = h'

-- A run whose first part returns goes on from there.
pub bind-ret :
    {A B : Type 0} (m : M A) (f : A → M B) (e : Env) (t t' : List Call) (a : A)
    → m e t ≡ ret a t'
    → (m >>= f) e t ≡ f a e t'
bind-ret {A} {B} m f e t t' a h = ap go h
  where
    go : Out A → Out B
    go o = elim o [
      | ret b s ↦ f b e s
      | exit c s ↦ exit c s
      | running s ↦ running s
      | fault s ↦ fault s
    ]
