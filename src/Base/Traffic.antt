-- ===== src/Base/Traffic.antt =====
-- The bytes that the kernel took for a descriptor, and those that it gave from one, in order.
use Prim.Native.Nat.{ℕ, zero, suc, ◌≤◌}
use mathlib.Core.Bool.{true}
use mathlib.Core.Path.{◌≡◌, refl, ap}
use mathlib.Core.Option.{Option, none, some}
use mathlib.Core.List.{List, [], ◌∷◌, ◌++◌}
use native.Mathlib.Omega.{arith}
use temp.Base.Tests.{◌==◌, if◌then◌else◌}
use temp.Base.Lists.{length, take}
use temp.Base.Sys.{Call, Env, send, read, write}

-- The part of a text that a call accepted or delivered, by its result.
abbrev pub accepted : Option ℕ → List ℕ → List ℕ
accepted none text = []
accepted (some k) text = take k text

unfoldable pub stream : Env → ℕ → List Call → List ℕ
stream e f [] = []
stream e f (send g text ∷ h) =
    if g == f then stream e f h ++ accepted (e (send g text ∷ h)).ret text else stream e f h
stream e f (_ ∷ h) = stream e f h

unfoldable pub written : Env → ℕ → List Call → List ℕ
written e f [] = []
written e f (write g text ∷ h) =
    if g == f then written e f h ++ accepted (e (write g text ∷ h)).ret text else written e f h
written e f (_ ∷ h) = written e f h

unfoldable pub got : Env → ℕ → List Call → List ℕ
got e f [] = []
got e f (read g n ∷ h) =
    if g == f
    then got e f h ++ accepted (e (read g n ∷ h)).ret (e (read g n ∷ h)).bytes
    else got e f h
got e f (_ ∷ h) = got e f h

pub self_eq : (f : ℕ) → (f == f) ≡ true
self_eq f = ground arith

pub take_all : (k : ℕ) (xs : List ℕ) → length xs ≤ k → take k xs ≡ xs
take_all zero [] h = refl
take_all zero (x ∷ xs) h = absurd (omega arith)
take_all (suc k) [] h = refl
take_all (suc k) (x ∷ xs) h = ap (λ r. x ∷ r) (take_all k xs (omega arith))

-- One more call on the descriptor.
pub written_write :
    (e : Env) (f : ℕ) (text : List ℕ) (h : List Call)
    → written e f (write f text ∷ h) ≡ written e f h ++ accepted (e (write f text ∷ h)).ret text
unfolding written
written_write e f text h = rw (self_eq f) refl

pub got_read :
    (e : Env) (f n : ℕ) (h : List Call)
    → got e f (read f n ∷ h) ≡ got e f h ++ accepted (e (read f n ∷ h)).ret (e (read f n ∷ h)).bytes
unfolding got
got_read e f n h = rw (self_eq f) refl

pub got_write :
    (e : Env) (f g : ℕ) (text : List ℕ) (h : List Call) → got e f (write g text ∷ h) ≡ got e f h
unfolding got
got_write e f g text h = refl

pub written_read :
    (e : Env) (f g n : ℕ) (h : List Call) → written e f (read g n ∷ h) ≡ written e f h
unfolding written
written_read e f g n h = refl
