-- ===== src/Queue/Runs.antt =====
-- Runs of nodes cut in two, joined, and led elsewhere.
use lingx.Base.{
  ℕ, ◌≡◌, sym, ◌∙◌, ◌≢◌, inl, inr, true, List, [], ◌∷◌, ◌++◌, arith, ◌==◌, ==_iff, Bool-cases,
}
use mathlib.Core.Path.{subst}
use lingx.Queue.{Links}
use lingx.Queue.Chain.{has, ◌∉◌, Distinct, Chain, end_of, not_mem-append}
use lingx.Queue.Ring.{ne_end_of_cons}

-- A chain is cut at any of its nodes, and two chains that meet are one.
pub Chain-cut :
    (m : Links) (a : ℕ) (xs : List ℕ) (y : ℕ) (ys : List ℕ) (b : ℕ)
    → Chain m a (xs ++ y ∷ ys) b
    → Chain m a xs y × Chain m y ys b
Chain-cut m a [] y ys b (n, p, c) = ((n, p), c)
Chain-cut m a (x ∷ xs) y ys b (n, p, c) =
    let rest = Chain-cut m x xs y ys b c in ((n, p, rest.0), rest.1)

pub Chain-join :
    (m : Links) (a : ℕ) (xs : List ℕ) (y : ℕ) (ys : List ℕ) (b : ℕ)
    → Chain m a xs y
    → Chain m y ys b
    → Chain m a (xs ++ y ∷ ys) b
Chain-join m a [] y ys b (n, p) d = (n, p, d)
Chain-join m a (x ∷ xs) y ys b (n, p, c) d = (n, p, Chain-join m x xs y ys b c d)

-- A chain whose last node leads elsewhere, and is else as it was.
pub Chain-retarget :
    {m g : Links} (a : ℕ) (xs : List ℕ) (b c : ℕ)
    → Chain m a xs b
    → Distinct (a ∷ xs)
    → ((d : ℕ) → has d (a ∷ xs) ≡ true → d ≢ end_of a xs → g.next d ≡ m.next d)
    → ((d : ℕ) → has d xs ≡ true → g.prev d ≡ m.prev d)
    → g.next (end_of a xs) ≡ c
    → g.prev c ≡ end_of a xs
    → Chain g a xs c
unfolding has
Chain-retarget a [] b c k dn sn sp e f = (e, f)
Chain-retarget a (x ∷ xs) b c (n, p, k) dn sn sp e f = (
  sn a (ground arith) (ne_end_of_cons a x xs dn.0) ∙ n,
  sp x (ground arith) ∙ p,
  Chain-retarget x xs b c k dn.1 (λ d h. sn d (ground arith)) (λ d h. sp d (ground arith)) e f,
)

pub Distinct-cut :
    (us ys : List ℕ)
    → Distinct (us ++ ys)
    → Distinct us × Distinct ys × ((d : ℕ) → has d us ≡ true → d ∉ ys)
unfolding has
Distinct-cut [] ys d = (tt, d, λ e h. absurd (cc))
Distinct-cut (u ∷ us) ys d =
    let rest = Distinct-cut us ys d.1 in
    let out = not_mem-append u us ys d.0 in
    (
      (out.0, rest.0),
      rest.1,
      λ e h. elim (Bool-cases (e == u)) [
        | inl k ↦ subst (λ z. z ∉ ys) (sym ((==_iff e u).0 k)) out.1
        | inr k ↦ rest.2 e (ground arith)
      ],
    )

pub end_of-has : (a : ℕ) (xs : List ℕ) → has (end_of a xs) (a ∷ xs) ≡ true
unfolding has
end_of-has a [] = ground arith
end_of-has a (x ∷ xs) = ground (arith, end_of-has x xs)

pub has-head : (a : ℕ) (xs : List ℕ) → has a (a ∷ xs) ≡ true
unfolding has
has-head a xs = ground arith
