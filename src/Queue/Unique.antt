-- ===== src/Queue/Unique.antt =====
-- The list that the links of a queue spell is determined by them.
use lingx.Base.{ℕ, ◌≡◌, refl, sym, ap, ◌∙◌, List, [], ◌∷◌}
use mathlib.Core.HLevel.{Σ_prop_path}
use lingx.Queue.{Links}
use lingx.Queue.Chain.{has, ◌∉◌, Distinct, Chain, ne_of_not_mem}
use lingx.Queue.Ring.{IsRing}

Chain-unique :
    (m : Links) (a : ℕ) (xs ys : List ℕ) (b : ℕ)
    → Chain m a xs b
    → Chain m a ys b
    → b ∉ xs
    → b ∉ ys
    → xs ≡ ys
unfolding has
Chain-unique m a [] [] b c d n k = refl
Chain-unique m a [] (y ∷ ys) b c d n k = absurd ((ne_of_not_mem b y ys k).0 (sym c.0 ∙ d.0))
Chain-unique m a (x ∷ xs) [] b c d n k = absurd ((ne_of_not_mem b x xs n).0 (sym d.0 ∙ c.0))
Chain-unique m a (x ∷ xs) (y ∷ ys) b c d n k =
    let same = sym c.0 ∙ d.0 in
    let rest =
      Chain-unique m x xs ys b c.2 (rw (sym same) at d.2) (ne_of_not_mem b x xs n).1
        (ne_of_not_mem b y ys k).1 in
    ap (λ z. z ∷ xs) same ∙ ap (◌∷◌ y) rest

Chain-IsProp : (m : Links) (a : ℕ) (xs : List ℕ) (b : ℕ) → IsProp (Chain m a xs b)
Chain-IsProp m a [] b = hlevel
Chain-IsProp m a (x ∷ xs) b = hlevel (Chain-IsProp m x xs b)

Distinct-IsProp : (xs : List ℕ) → IsProp (Distinct xs)
Distinct-IsProp [] = hlevel
Distinct-IsProp (x ∷ xs) = hlevel (Distinct-IsProp xs)

IsRing-IsProp : (m : Links) (h : ℕ) (xs : List ℕ) → IsProp (IsRing m h xs)
IsRing-IsProp m h xs = hlevel (Chain-IsProp m h xs h, Distinct-IsProp (h ∷ xs))

-- Of the links and the sentinel, at most one list of nodes is the queue's: that the links spell a
-- list, and which, is a property of the memory and no choice.
pub IsRing-unique : (m : Links) (h : ℕ) → IsProp ((xs : List ℕ) × IsRing m h xs)
IsRing-unique m h (xs, r) (ys, k) =
    Σ_prop_path (IsRing-IsProp m h)
      (Chain-unique m h xs ys h r.chain k.chain r.distinct.0 k.distinct.0)
