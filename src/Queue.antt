-- ===== src/Queue.antt =====
-- src/lingx/core/queue.h and queue.cc: the intrusive doubly linked queue. A node is a number, its
-- address, and the memory gives each node's two pointers. Each macro is its sequence of stores.
pub mod Chain
pub mod Ring
pub mod Sort
pub mod Runs
pub mod Parts
pub mod Middle
pub mod Unique
use lingx.Base.{ℕ, zero, suc, Bool, Option, none, some, ◌==◌, if◌then◌else◌}

pub record Links : Type 0 where
  pub prev : ℕ → ℕ
  pub next : ℕ → ℕ

abbrev pub update : (ℕ → ℕ) → ℕ → ℕ → ℕ → ℕ
update f a v b = if b == a then v else f b

abbrev pub set_prev : Links → ℕ → ℕ → Links
set_prev m a v = record m { prev = update m.prev a v }

abbrev pub set_next : Links → ℕ → ℕ → Links
set_next m a v = record m { next = update m.next a v }

unfoldable pub init : Links → ℕ → Links
init m q = set_next (set_prev m q q) q q

unfoldable pub empty : Links → ℕ → Bool
empty m h = h == m.prev h

-- `Queue_insert_head`, also called `Queue_insert_after`.
unfoldable pub insert_head : Links → ℕ → ℕ → Links
insert_head m h x =
    let m1 = set_next m x (m.next h) in
    let m2 = set_prev m1 (m1.next x) x in let m3 = set_prev m2 x h in set_next m3 h x

unfoldable pub insert_tail : Links → ℕ → ℕ → Links
insert_tail m h x =
    let m1 = set_prev m x (m.prev h) in
    let m2 = set_next m1 (m1.prev x) x in let m3 = set_next m2 x h in set_prev m3 h x

unfoldable pub head : Links → ℕ → ℕ
head m h = m.next h

unfoldable pub last : Links → ℕ → ℕ
last m h = m.prev h

unfoldable pub remove : Links → ℕ → Links
remove m x = let m1 = set_prev m (m.next x) (m.prev x) in set_next m1 (m1.prev x) (m1.next x)

-- `Queue_split` moves the nodes from `q` on to the queue `n`.
unfoldable pub split : Links → ℕ → ℕ → ℕ → Links
split m h q n =
    let m1 = set_prev m n (m.prev h) in
    let m2 = set_next m1 (m1.prev n) n in
    let m3 = set_next m2 n q in
    let m4 = set_prev m3 h (m3.prev q) in let m5 = set_next m4 (m4.prev h) h in set_prev m5 q n

-- `Queue_add` moves the nodes of the queue `n` behind those of `h`.
unfoldable pub add : Links → ℕ → ℕ → Links
add m h n =
    let m1 = set_next m (m.prev h) (m.next n) in
    let m2 = set_prev m1 (m1.next n) (m1.prev h) in
    let m3 = set_prev m2 h (m2.prev n) in set_next m3 (m3.prev h) h

-- The loop of `Queue_middle`; `none` means that the fuel ran out.
unfoldable pub middle_loop : Links → ℕ → ℕ → ℕ → ℕ → Option ℕ
unfolding last
middle_loop m h zero middle next = none
middle_loop m h (suc fuel) middle next =
    let middle' = m.next middle in
    let next' = m.next next in
    let next'' = m.next next' in
    let rest = middle_loop m h fuel middle' next'' in
    if next' == last m h then some middle' else if next'' == last m h then some middle' else rest

unfoldable pub middle : Links → ℕ → ℕ → Option ℕ
unfolding middle_loop head last
middle m h fuel =
    if head m h == last m h then some (head m h) else middle_loop m h fuel (head m h) (head m h)
