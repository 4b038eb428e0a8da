-- ===== src/Poll/Changes.antt =====
-- Adding and deleting an event keeps the entries and the indices of the events together.
pub mod Drop
use lingx.Base.{
  ℕ, ◌<◌, ◌≡◌, refl, sym, ap, ◌∙◌, ◌≢◌, inl, inr, Bool, true, false, Option, some, arith, ◌==◌,
  if◌then◌else◌, Bool-cases,
}
use mathlib.Core.Path.{fun_ext, subst}
use lingx.Events.{Event}
use lingx.Poll.{
  Direction, pollin, pollout, other, same_direction, PollFd, Poll, invalid_index, event_of,
  with_index, with_active, index_of, new_entry, join_entry, leave_entry,
}
use lingx.Poll.Table.{Consistent, Consistent-fresh, Consistent-join, Consistent-leave}
use lingx.Poll.Directions.{is_event}

abbrev pub fd_of : Poll → ℕ → Option ℕ
fd_of s c = (s.conns c).conn_fd

abbrev pub idx_of : Poll → ℕ → Direction → ℕ
idx_of s c d = index_of s (event_of s c d)

-- Every event is one of the two of its connection, and the table of files has each open connection.
pub record Wired (s : Poll) : Type 0 where
  pub conn_of : (c : ℕ) (d : Direction) → (s.loop.events (event_of s c d)).conn ≡ c
  pub apart : (c : ℕ) → event_of s c pollin ≢ event_of s c pollout
  pub filed : (c f : ℕ) → fd_of s c ≡ some f → s.files f ≡ c

pub record IsValid (s : Poll) : Type 0 where
  pub wired : Wired s
  pub fits : Consistent (fd_of s) s.files (idx_of s) s.entries s.n

directions_apart :
    (s : Poll)
    → Wired s
    → (c : ℕ) (d d' : Direction) → event_of s c d' == event_of s c d ≡ same_direction d' d
directions_apart s w c pollin pollin = ground arith
directions_apart s w c pollin pollout = let ne = w.apart c in ground arith
directions_apart s w c pollout pollin = let ne = w.apart c in ground arith
directions_apart s w c pollout pollout = ground arith

-- Two events are the same if they are of the same connection and direction.
pub events_apart :
    (s : Poll)
    → Wired s
    → (c c' : ℕ) (d d' : Direction) → event_of s c' d' == event_of s c d ≡ is_event c d c' d'
events_apart s w c c' d d' = elim (Bool-cases (c' == c)) [
  | inl e ↦ let same : c' ≡ c = ground arith in rw (e, same) (directions_apart s w c d d')
  | inr e ↦
      let ne : event_of s c' d' ≢ event_of s c d = λ z.
        absurd
          (ground (arith, w.conn_of c d, w.conn_of c' d', ap (λ x. (s.loop.events x).conn) z)) in
      rw e (ground arith)
]

Wired-array :
    (s : Poll) (es : ℕ → PollFd) (n : ℕ) → Wired s → Wired (record s { entries = es; n = n })
Wired-array s es n w = record { conn_of = w.conn_of; apart = w.apart; filed = w.filed }

pick_index :
    (b : Bool) (e e' : Event) → (if b then e else e').index ≡ (if b then e.index else e'.index)
pick_index true e e' = refl
pick_index false e e' = refl

pub idx_of-with_index :
    (s : Poll)
    → Wired s
    → (c : ℕ) (d : Direction) (v c' : ℕ) (d' : Direction)
    → idx_of (with_index s (event_of s c d) v) c' d'
      ≡ (if is_event c d c' d' then v else idx_of s c' d')
idx_of-with_index s w c d v c' d' =
    pick_index (event_of s c' d' == event_of s c d)
      (record (s.loop.events (event_of s c d)) { index = v }) (s.loop.events (event_of s c' d'))
    ∙ ap (λ b. if b then v else idx_of s c' d') (events_apart s w c c' d d')

Wired-with_index : (s : Poll) (ev v : ℕ) → Wired s → Wired (with_index s ev v)
Wired-with_index s ev v w = record {
  conn_of = λ c d. ground (arith, w.conn_of c d);
  apart = w.apart;
  filed = w.filed;
}

pub idx_of-with_active : (s : Poll) (ev : ℕ) (b : Bool) → idx_of (with_active s ev b) ≡ idx_of s
idx_of-with_active s ev b = fun_ext (λ c. fun_ext (λ d.
    pick_index (event_of s c d == ev) (record (s.loop.events ev) { active = b })
      (s.loop.events (event_of s c d))
    ∙ ground arith))

pub with_active-IsValid : (s : Poll) (ev : ℕ) (b : Bool) → IsValid s → IsValid (with_active s ev b)
with_active-IsValid s ev b v = record {
  wired = record {
    conn_of = λ c d. ground (arith, v.wired.conn_of c d);
    apart = v.wired.apart;
    filed = v.wired.filed;
  };
  fits =
      subst (λ idx. Consistent (fd_of s) s.files idx s.entries s.n)
        (sym (idx_of-with_active s ev b)) v.fits;
}

module _ (s : Poll) (v : IsValid s) (c : ℕ) (d : Direction) where
  pub new_entry-IsValid :
      (f : ℕ)
      → fd_of s c ≡ some f
      → idx_of s c d ≡ invalid_index
      → idx_of s c (other d) ≡ invalid_index
      → s.n < invalid_index
      → IsValid (new_entry s (event_of s c d) c d)
  unfolding new_entry
  new_entry-IsValid f open_ none_ none_other room = record {
    wired =
        Wired-array (with_index s (event_of s c d) s.n) _ _
          (Wired-with_index s (event_of s c d) s.n v.wired);
    fits =
        Consistent-fresh (fd_of s) s.files v.wired.filed (idx_of s) s.entries s.n v.fits c d _ _ s.n
          (idx_of-with_index s v.wired c d s.n) f open_ none_ none_other refl room
          (λ i ne. ground arith) (ground arith) (λ x. ground arith);
  }

  pub idx_of-new_entry :
      (c' : ℕ) (d' : Direction)
      → idx_of (new_entry s (event_of s c d) c d) c' d'
        ≡ (if is_event c d c' d' then s.n else idx_of s c' d')
  unfolding new_entry
  idx_of-new_entry = idx_of-with_index s v.wired c d s.n

  pub idx_of-join_entry :
      (j c' : ℕ) (d' : Direction)
      → idx_of (join_entry s (event_of s c d) j d) c' d'
        ≡ (if is_event c d c' d' then j else idx_of s c' d')
  unfolding join_entry
  idx_of-join_entry j = idx_of-with_index s v.wired c d j

  pub idx_of-leave_entry :
      (j c' : ℕ) (d' : Direction)
      → idx_of (leave_entry s (event_of s c d) j d) c' d'
        ≡ (if is_event c d c' d' then invalid_index else idx_of s c' d')
  unfolding leave_entry
  idx_of-leave_entry j = idx_of-with_index s v.wired c d invalid_index

  pub join_entry-IsValid :
      idx_of s c d ≡ invalid_index
      → idx_of s c (other d) ≢ invalid_index
      → IsValid (join_entry s (event_of s c d) (idx_of s c (other d)) d)
  unfolding join_entry
  join_entry-IsValid none_ some_other = record {
    wired =
        Wired-array (with_index s (event_of s c d) (idx_of s c (other d))) _ _
          (Wired-with_index s (event_of s c d) (idx_of s c (other d)) v.wired);
    fits =
        Consistent-join (fd_of s) s.files v.wired.filed (idx_of s) s.entries s.n v.fits c d _ _
          (idx_of s c (other d)) (idx_of-with_index s v.wired c d (idx_of s c (other d))) none_
          some_other refl (λ i. ground arith) (λ i x. ground arith);
  }

  pub leave_entry-IsValid :
      idx_of s c d ≢ invalid_index
      → idx_of s c (other d) ≢ invalid_index
      → IsValid (leave_entry s (event_of s c d) (idx_of s c (other d)) d)
  unfolding leave_entry
  leave_entry-IsValid some_ some_other = record {
    wired =
        Wired-array (with_index s (event_of s c d) invalid_index) _ _
          (Wired-with_index s (event_of s c d) invalid_index v.wired);
    fits =
        Consistent-leave (fd_of s) s.files v.wired.filed (idx_of s) s.entries s.n v.fits c d _ _
          invalid_index (idx_of-with_index s v.wired c d invalid_index) some_ some_other refl
          (λ i. ground arith) (λ i x. ground arith);
  }
