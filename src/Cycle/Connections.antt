-- ===== src/Cycle/Connections.antt =====
-- `Cycle::init_connections_events` of src/lingx/core/cycle.cc: the connections and their events, and
-- the list of free connections, which is linked through their `data`. An element of the three arrays
-- is named by its index; no connection (a null pointer) and no descriptor (-1) are `none`.
use lingx.Base.{
  ℕ, zero, suc, ◌+◌, ◌<◌, ◌≡◌, refl, Bool, true, false, Option, none, some, List, [], ◌∷◌, arith,
  ◌==◌, if◌then◌else◌,
}

pub record Connection : Type 0 where
  pub data_ : Option ℕ
  pub read : ℕ
  pub write : ℕ
  pub fd : Option ℕ

pub record EventFlags : Type 0 where
  pub closed : Bool
  pub instance_ : Bool

pub record Pool : Type 0 where
  pub connections : ℕ → Connection
  pub read_events : ℕ → EventFlags
  pub write_events : ℕ → EventFlags
  pub free_connections : Option ℕ
  pub free_connection_n : ℕ

abbrev pub set_connection : (ℕ → Connection) → ℕ → Connection → ℕ → Connection
set_connection cs i c j = if j == i then c else cs j

-- The loop from the last connection to the first.
unfoldable pub link_loop : ℕ → Option ℕ → (ℕ → Connection) → (ℕ → Connection) × Option ℕ
link_loop zero next cs = (cs, next)
link_loop (suc i) next cs =
    let c : Connection = record { data_ = next; read = i; write = i; fd = none } in
    link_loop i (some i) (set_connection cs i c)

unfoldable pub init_connections_events : ℕ → (ℕ → Connection) → Pool
unfolding link_loop
init_connections_events n cs =
    let linked = link_loop n none cs in
    record {
      connections = linked.0;
      read_events = λ i. record { closed = true; instance_ = true };
      write_events = λ i. record { closed = true; instance_ = false };
      free_connections = linked.1;
      free_connection_n = n;
    }

-- From `p` on, the links visit the connections of the list, each with no descriptor and with the
-- events of its own index.
abbrev pub FreeList : (ℕ → Connection) → Option ℕ → List ℕ → Type 0
FreeList cs p [] = p ≡ none
FreeList cs p (x ∷ xs) =
    (p ≡ some x)
    × ((cs x).fd ≡ none)
    × ((cs x).read ≡ x)
    × ((cs x).write ≡ x)
    × FreeList cs (cs x).data_ xs

abbrev pub from : ℕ → ℕ → List ℕ
from i zero = []
from i (suc k) = i ∷ from (i + 1) k

FreeList-set_connection :
    (cs : ℕ → Connection) (a : ℕ) (c : Connection) (p : Option ℕ) (i k : ℕ)
    → a < i
    → FreeList cs p (from i k)
    → FreeList (set_connection cs a c) p (from i k)
FreeList-set_connection cs a c p i zero lt h = h
FreeList-set_connection cs a c p i (suc k) lt h =
    let same : set_connection cs a c i ≡ cs i = ground arith in
    let rest = FreeList-set_connection cs a c (cs i).data_ (i + 1) k (omega arith) h.4 in
    (h.0, rw same h.1, rw same h.2, rw same h.3, rw same rest)

plus_one : (i : ℕ) → i + 1 ≡ suc i
plus_one i = omega arith

link_loop-FreeList :
    (i k n : ℕ) (next : Option ℕ) (cs : ℕ → Connection)
    → i + k ≡ n
    → FreeList cs next (from i k)
    → FreeList (link_loop i next cs).0 (link_loop i next cs).1 (from 0 n)
unfolding link_loop
link_loop-FreeList zero k n next cs e h = let whole : k ≡ n = omega arith in rw (← whole) h
link_loop-FreeList (suc i) k n next cs e h =
    let c : Connection = record { data_ = next; read = i; write = i; fd = none } in
    link_loop-FreeList i (suc k) n (some i) (set_connection cs i c) (omega arith) (
      let same : set_connection cs i c i ≡ c = ground arith in
      (
        refl,
        rw same refl,
        rw same refl,
        rw same refl,
        rw same (FreeList-set_connection cs i c next (i + 1) k (omega arith) (rw (plus_one i) h)),
      ))

-- After the initialisation the free list holds every connection once, in the order of the array;
-- each has no descriptor, is bound to the events of its own index, and all these events are closed.
pub init_connections_events_lem :
    (n : ℕ) (cs : ℕ → Connection)
    → FreeList
        (init_connections_events n cs).connections
        (init_connections_events n cs).free_connections
        (from 0 n)
      × ((i : ℕ)
          → (((init_connections_events n cs).read_events i).closed ≡ true)
            × (((init_connections_events n cs).write_events i).closed ≡ true))
unfolding init_connections_events
init_connections_events_lem n cs =
    (link_loop-FreeList n 0 n none cs (omega arith) refl, λ i. (refl, refl))
