-- ===== src/Base/History.antt =====
-- What a history of calls did to one descriptor: how often it was read, closed and sent a text.
use Prim.Native.Nat.{ℕ, ◌+◌}
use mathlib.Core.Bool.{Bool, true, false, ◌&&◌}
use mathlib.Core.Path.{◌≡◌, refl}
use mathlib.Core.List.{List, [], ◌∷◌}
use native.Mathlib.Omega.{arith}
use temp.Base.Tests.{◌==◌, if◌then◌else◌}
use temp.Base.Lists.{hit}
use temp.Base.Sys.{Call, recv, send, close}

unfoldable pub reads : ℕ → List Call → ℕ
reads f [] = 0
reads f (recv g n ∷ h) = hit f g + reads f h
reads f (_ ∷ h) = reads f h

unfoldable pub closes : ℕ → List Call → ℕ
closes f [] = 0
closes f (close g ∷ h) = hit f g + closes f h
closes f (_ ∷ h) = closes f h

unfoldable pub same_text : List ℕ → List ℕ → Bool
same_text [] [] = true
same_text [] (y ∷ ys) = false
same_text (x ∷ xs) [] = false
same_text (x ∷ xs) (y ∷ ys) = x == y && same_text xs ys

pub same_text_refl : (xs : List ℕ) → same_text xs xs ≡ true
unfolding same_text
same_text_refl [] = refl
same_text_refl (x ∷ xs) = ground (arith, same_text_refl xs)

-- The sends of exactly `text` to `f`.
unfoldable pub delivered : ℕ → List ℕ → List Call → ℕ
delivered f text [] = 0
delivered f text (send g sent ∷ h) =
    (if same_text sent text then hit f g else 0) + delivered f text h
delivered f text (_ ∷ h) = delivered f text h

pub delivered_send :
    (f g : ℕ) (text : List ℕ) (h : List Call)
    → delivered f text (send g text ∷ h) ≡ hit f g + delivered f text h
unfolding delivered
delivered_send f g text h = rw (same_text_refl text)
