-- ===== src/WorkQueue/Window.antt =====
-- The items that the queue of ALSP/cond_var.c holds, read round its array, and its invariant.
use temp.Base.{
  ℕ, zero, suc, ◌+◌, ◌-◌, ◌%◌, ◌≤◌, ◌<◌, ◌≡◌, refl, ap, ap₂, List, [], ◌∷◌, ◌++◌, arith, length,
  get_or, set, get_or-set_self, get_or-set_ne,
}
use temp.WorkQueue.{Workqueue}

-- The `n` items from place `h` on; places count round the array of 64.
abbrev pub window : List ℕ → ℕ → ℕ → List ℕ
window buf h zero = []
window buf h (suc n) = get_or buf (h % 64) 0 ∷ window buf (h + 1) n

abbrev pub contents : Workqueue → List ℕ
contents q = window q.item q.idx q.cnt

-- `idx` may stand at 64 itself: `pop_item` wraps it only at the next call.
pub record IsValid (q : Workqueue) : Type 0 where
  pub storage : length q.item ≡ 64
  pub idx_in : q.idx ≤ 64
  pub cnt_in : q.cnt ≤ 64

pub length-window : (buf : List ℕ) (h n : ℕ) → length (window buf h n) ≡ n
length-window buf h zero = refl
length-window buf h (suc n) = ap suc (length-window buf (h + 1) n)

-- A window depends on its start only round the array.
pub window_round : (buf : List ℕ) (h k n : ℕ) → h % 64 ≡ k % 64 → window buf h n ≡ window buf k n
window_round buf h k zero e = refl
window_round buf h k (suc n) e =
    ap₂ ◌∷◌ (ap (λ m. get_or buf m 0) e) (window_round buf (h + 1) (k + 1) n (omega arith))

-- Writing just past a window extends it by the item written.
pub window-set :
    (buf : List ℕ) (x n h i : ℕ)
    → length buf ≡ 64
    → n < 64
    → i ≡ (h + n) % 64
    → window (set buf i x) h (suc n) ≡ window buf h n ++ (x ∷ [])
window-set buf x zero h i s hn e =
    let at : h % 64 ≡ i = omega arith in
    rw at (ap (λ y. y ∷ []) (get_or-set_self buf i x 0 (omega arith)))
window-set buf x (suc n) h i s hn e =
    ap₂ ◌∷◌ (get_or-set_ne buf i (h % 64) x 0 (omega arith))
      (window-set buf x n (h + 1) i s (omega arith) (omega arith))

-- The window of a queue that is not empty begins with the item at its index.
pub window_head :
    (buf : List ℕ) (h n : ℕ)
    → 0 < n
    → window buf h n ≡ get_or buf (h % 64) 0 ∷ window buf (h + 1) (n - 1)
window_head buf h zero p = absurd (omega arith)
window_head buf h (suc n) p = ap (λ k. get_or buf (h % 64) 0 ∷ window buf (h + 1) k) (omega arith)
