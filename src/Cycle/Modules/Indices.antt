-- ===== src/Cycle/Modules/Indices.antt =====
-- The modules of one type get indices of their own, below the number returned.
use lingx.Base.{
  ℕ, zero, suc, ◌+◌, ◌≤◌, ◌<◌, ◌≡◌, ◌≢◌, inl, inr, Bool, true, false, not, ◌&&◌, ◌||◌, List, [],
  ◌∷◌, ◌++◌, arith, ltb, leb, ◌==◌, if◌then◌else◌, Bool-cases, if_cases, length,
}
use mathlib.Core.List.{append-nil, append_assoc}
use lingx.Conf.Directives.{Module}
use lingx.Cycle.Modules.{
  unassigned, taken, free_index, max_of, Counted, count_loop, max_index, count_modules,
}

-- How many modules of the type have at least this index.
count_from : ℕ → ℕ → List Module → ℕ
count_from type i [] = 0
count_from type i (m ∷ ms) =
    (if (m.type == type) && leb i m.ctx_index then 1 else 0) + count_from type i ms

count_from-le : (type i : ℕ) (ms : List Module) → count_from type (i + 1) ms ≤ count_from type i ms
unfolding count_from
count_from-le type i [] = omega arith
count_from-le type i (m ∷ ms) = ground (arith, count_from-le type i ms)

count_from-lt :
    (type i : ℕ) (ms : List Module)
    → taken type i ms ≡ true
    → count_from type (i + 1) ms < count_from type i ms
unfolding count_from taken
count_from-lt type i [] h = cc
count_from-lt type i (m ∷ ms) h = ground (arith, count_from-lt type i ms, count_from-le type i ms)

count_from-length : (type i : ℕ) (ms : List Module) → count_from type i ms ≤ length ms
unfolding count_from
count_from-length type i [] = omega arith
count_from-length type i (m ∷ ms) = ground (arith, count_from-length type i ms)

free_index-free :
    (fuel type : ℕ) (shared : Bool) (ms : List Module) (i : ℕ)
    → count_from type i ms < fuel
    → taken type (free_index fuel type shared ms i) ms ≡ false
unfolding free_index
free_index-free zero type shared ms i h = absurd (omega arith)
free_index-free (suc fuel) type shared ms i h = elim (Bool-cases (taken type i ms)) [
  | inl e ↦
      rw e (free_index-free fuel type shared ms (i + 1) (omega (arith, count_from-lt type i ms e)))
  | inr e ↦ ground arith
]

-- No two modules of the type have the same index, unassigned ones aside.
abbrev pub Unique : ℕ → List Module → Type 0
Unique type [] = Unit {0}
Unique type (m ∷ ms) =
    ((not (m.type == type) || m.ctx_index == unassigned || not (taken type m.ctx_index ms)) ≡ true)
    × Unique type ms

taken-replace :
    (type i : ℕ) (xs ys : List Module) (m m' : Module)
    → taken type i (xs ++ m ∷ ys) ≡ false
    → m'.ctx_index ≢ i
    → taken type i (xs ++ m' ∷ ys) ≡ false
unfolding taken
taken-replace type i [] ys m m' h ne = ground arith
taken-replace type i (x ∷ xs) ys m m' h ne = ground (arith, taken-replace type i xs ys m m')

Unique-replace :
    (type : ℕ) (xs ys : List Module) (m m' : Module)
    → taken type m'.ctx_index (xs ++ m ∷ ys) ≡ false
    → Unique type (xs ++ m ∷ ys)
    → Unique type (xs ++ m' ∷ ys)
unfolding taken
Unique-replace type [] ys m m' h u = (ground arith, u.1)
Unique-replace type (x ∷ xs) ys m m' h u = (
  ground (arith, taken-replace type x.ctx_index xs ys m m'),
  Unique-replace type xs ys m m' (ground arith) u.1,
)

count_loop-Unique :
    (type : ℕ) (shared : Bool) (next max : ℕ) (passed todo : List Module)
    → Unique type (passed ++ todo)
    → Unique type (count_loop type shared next max passed todo).modules
unfolding count_loop
count_loop-Unique type shared next max passed [] u = rw (append-nil passed) at u
count_loop-Unique type shared next max passed (m ∷ todo) u =
    let all = passed ++ m ∷ todo in
    let i = free_index (suc (length all)) type shared all next in
    let m' = record m { ctx_index = i } in
    let kept = λ (n k : ℕ).
      count_loop-Unique type shared n k (passed ++ m ∷ []) todo
        (rw (append_assoc passed (m ∷ []) todo) u) in
    let free =
      free_index-free (suc (length all)) type shared all next
        (omega (arith, count_from-length type next all)) in
    let fresh =
      count_loop-Unique type shared (i + 1) (max_of max i) (passed ++ m' ∷ []) todo
        (rw (append_assoc passed (m' ∷ []) todo) (Unique-replace type passed todo m m' free u)) in
    if_cases (λ (c : Counted). Unique type c.modules) (not (m.type == type)) (λ e. kept next max)
      (λ e.
        if_cases (λ (c : Counted). Unique type c.modules) (not (m.ctx_index == unassigned))
          (λ a. kept (if m.ctx_index == next then next + 1 else next) (max_of max m.ctx_index))
          (λ a. fresh))

-- Every module of the type has an index below `n`.
abbrev pub Below : ℕ → ℕ → List Module → Type 0
Below type n [] = Unit {0}
Below type n (m ∷ ms) = ((not (m.type == type) || ltb m.ctx_index n) ≡ true) × Below type n ms

Below-mono : (type n k : ℕ) (ms : List Module) → n ≤ k → Below type n ms → Below type k ms
Below-mono type n k [] le b = tt
Below-mono type n k (m ∷ ms) le b = (ground arith, Below-mono type n k ms le b.1)

Below-snoc :
    (type n : ℕ) (ms : List Module) (m : Module)
    → Below type n ms
    → (not (m.type == type) || ltb m.ctx_index n) ≡ true
    → Below type n (ms ++ m ∷ [])
Below-snoc type n [] m b h = (h, tt)
Below-snoc type n (x ∷ ms) m b h = (b.0, Below-snoc type n ms m b.1 h)

max_index-le : (type max : ℕ) (ms : List Module) → max ≤ max_index type max ms
unfolding max_index
max_index-le type max [] = omega arith
max_index-le type max (m ∷ ms) =
    let rest = max_index-le type (if m.type == type then max_of max m.ctx_index else max) ms in
    ground arith

count_loop-Below :
    (type : ℕ) (shared : Bool) (next max : ℕ) (passed todo : List Module)
    → Below type (max + 1) passed
    → Below type
        ((count_loop type shared next max passed todo).max + 1)
        (count_loop type shared next max passed todo).modules
unfolding count_loop
count_loop-Below type shared next max passed [] b = b
count_loop-Below type shared next max passed (m ∷ todo) b =
    let all = passed ++ m ∷ todo in
    let i = free_index (suc (length all)) type shared all next in
    let m' = record m { ctx_index = i } in
    let step =
      λ (n k : ℕ) (x : Module) (le : max ≤ k)
          (h : (not (x.type == type) || ltb x.ctx_index (k + 1)) ≡ true).
        count_loop-Below type shared n k (passed ++ x ∷ []) todo (
          Below-snoc type (k + 1) passed x
            (Below-mono type (max + 1) (k + 1) passed (omega arith) b) h) in
    let P = λ (c : Counted). Below type (c.max + 1) c.modules in
    if_cases P (not (m.type == type)) (λ e. step next max m (omega arith) (ground arith))
      (λ e.
        if_cases P (not (m.ctx_index == unassigned))
          (λ a.
            step (if m.ctx_index == next then next + 1 else next) (max_of max m.ctx_index) m
              (ground arith) (ground arith))
          (λ a. step (i + 1) (max_of max i) m' (ground arith) (ground arith)))

-- If the modules of a type that have an index have distinct ones, then afterwards all modules of the
-- type have an index below the number returned, and the indices, other than `unassigned` where the
-- number returned exceeds even that, are distinct.
pub count_modules_indices :
    (type : ℕ) (shared : Bool) (ms : List Module)
    → Unique type ms
    → Unique type (count_modules type shared ms).0
      × Below type (count_modules type shared ms).1 (count_modules type shared ms).0
unfolding count_modules
count_modules_indices type shared ms u = (
  count_loop-Unique type shared 0 0 [] ms u,
  (let c = count_loop type shared 0 0 [] ms in
      Below-mono type (c.max + 1) ((if shared then max_index type c.max c.modules else c.max) + 1)
        c.modules (ground (arith, max_index-le type c.max c.modules))
        (count_loop-Below type shared 0 0 [] ms tt)),
)
