-- ===== src/Poll/Watch.antt =====
-- What poll() is asked to watch.
use lingx.Base.{
  ℕ, ◌-◌, ◌<◌, ◌≡◌, refl, sym, ap, ◌∙◌, ◌↔◌, inl, inr, true, false, not, Option, none, some, arith,
  ltb, ◌==◌, Bool-cases, Option-cases, if_cases,
}
use mathlib.Core.Option.{some-injective}
use mathlib.Core.Path.{subst}
use lingx.Poll.{
  Direction, other, Conn, Poll, invalid_index, event_of, with_index, with_active, index_of,
  new_entry, join_entry, leave_entry, add_active, poll_add_event, drop_entry, del_inactive,
  poll_del_event,
}
use lingx.Poll.Changes.{fd_of, idx_of, IsValid}
use lingx.Poll.Directions.{is_event}
use lingx.Poll.Registration.{
  IsRegistered, SameOthers, poll_add_event-IsValid, poll_del_event-IsValid,
}
use lingx.Queue.Sort.{place}
use mathlib.Core.Option as Opt

-- One of the entries asks for this direction of the descriptor.
abbrev pub Watches : Poll → ℕ → Direction → Type 0
Watches s f d = (i : ℕ) × (i < s.n) × ((s.entries i).fd ≡ some f) × ((s.entries i).asked d ≡ true)

-- What is watched, in terms of the connections.
IsValid-Watches :
    (s : Poll)
    → IsValid s
    → (f : ℕ) (d : Direction)
    → Watches s f d ↔ ((c : ℕ) × (fd_of s c ≡ some f) × IsRegistered s c d)
IsValid-Watches s v f d = (
  λ w.
      let (g, q, r, bits, _) = v.fits.owned w.0 w.1 in
      let same : g ≡ f = some-injective g f (sym q ∙ w.2) in
      (
        s.files g,
        r ∙ ap (λ x. some x) same,
        λ z. absurd (omega (arith, v.fits.small, w.1, bits d w.3)),
      ),
  λ w. let p = v.fits.placed w.0 d w.2 in (idx_of s w.0 d, p.0, p.1 ∙ w.1, p.2),
)

-- Every other pair of a descriptor and a direction is watched as before.
abbrev pub WatchesOthers : Poll → Poll → ℕ → Direction → Type 0
WatchesOthers s s' f d =
    (f' : ℕ) (d' : Direction) → is_event f d f' d' ≡ false → Watches s' f' d' ↔ Watches s f' d'

abbrev SameConns : Poll → Option Poll → Type 0
SameConns s none = Unit {0}
SameConns s (some s') = s'.conns ≡ s.conns

add_active-SameConns : (s : Poll) (ev c : ℕ) (d : Direction) → SameConns s (add_active s ev c d)
unfolding add_active new_entry join_entry
add_active-SameConns s ev c d =
    if_cases (SameConns s) (not (index_of s ev == invalid_index)) (λ e. refl)
      (λ e.
        if_cases (SameConns s) (index_of s (event_of s c (other d)) == invalid_index)
          (λ g. if_cases (SameConns s) (ltb s.n s.size) (λ k. refl) (λ k. tt)) (λ g. refl))

drop_entry-SameConns : (s : Poll) (i : ℕ) → SameConns s (drop_entry s i)
unfolding drop_entry
drop_entry-SameConns s i =
    if_cases (SameConns s) (ltb i (s.n - 1))
      (λ e. elim (Option-cases ((s.entries (s.n - 1)).fd)) [
        | inl g ↦ rw g tt
        | inr (f, g) ↦ elim (Option-cases ((s.conns (s.files f)).conn_fd)) [
          | inl h ↦ rw (g, h) refl
          | inr (f', h) ↦ rw (g, h) refl
        ]
      ])
      (λ e. refl)

with_index-SameConns :
    (s : Poll) (ev v : ℕ) (r : Option Poll)
    → SameConns s r
    → SameConns s (Opt.map (λ s2. with_index s2 ev v) r)
with_index-SameConns s ev v none h = tt
with_index-SameConns s ev v (some s') h = h

del_inactive-SameConns : (s : Poll) (ev c : ℕ) (d : Direction) → SameConns s (del_inactive s ev c d)
unfolding del_inactive leave_entry
del_inactive-SameConns s ev c d =
    if_cases (SameConns s) (index_of s ev == invalid_index) (λ e. refl)
      (λ e.
        if_cases (SameConns s) (index_of s (event_of s c (other d)) == invalid_index)
          (λ g.
            with_index-SameConns s ev invalid_index (drop_entry s (index_of s ev))
              (drop_entry-SameConns s (index_of s ev)))
          (λ g. refl))

is_event-fd :
    (c c' f f' : ℕ) (d d' : Direction)
    → (c' ≡ c → f' ≡ f)
    → is_event f d f' d' ≡ false
    → is_event c d c' d' ≡ false
is_event-fd c c' f f' d d' same h = elim (Bool-cases (c' == c)) [
  | inl e ↦ let k : f' ≡ f = same (ground arith) in ground (arith, h)
  | inr e ↦ rw e refl
]

module _ (s s' : Poll) (c f : ℕ) (d : Direction) (v : IsValid s) (v' : IsValid s')
    (open_ : fd_of s c ≡ some f) (conns : s'.conns ≡ s.conns) (others : SameOthers s s' c d) where
  same_fd : (c' : ℕ) → fd_of s' c' ≡ fd_of s c'
  same_fd c' = ap (λ (g : ℕ → Conn). (g c').conn_fd) conns

  others_apart :
      (c' f' : ℕ) (d' : Direction)
      → fd_of s c' ≡ some f'
      → is_event f d f' d' ≡ false
      → is_event c d c' d' ≡ false
  others_apart c' f' d' e h =
      is_event-fd c c' f f' d d' (λ q. some-injective f' f (sym e ∙ ap (fd_of s) q ∙ open_)) h

  SameOthers-Watches : WatchesOthers s s' f d
  SameOthers-Watches f' d' h =
      let before = IsValid-Watches s v f' d' in
      let after = IsValid-Watches s' v' f' d' in
      (
        λ w.
            let (c', e, r) = after.0 w in
            let e' = sym (same_fd c') ∙ e in
            before.1 (c', e', (others c' d' (others_apart c' f' d' e' h)).0 r),
        λ w.
            let (c', e, r) = before.0 w in
            after.1 (c', same_fd c' ∙ e, (others c' d' (others_apart c' f' d' e h)).1 r),
      )

-- After an event of an open connection is added, poll() watches its direction of the descriptor, and
-- every other direction and descriptor as it did before, if the array has room for an entry and the
-- number of entries has not reached the invalid index.
pub poll_add_event-Watches :
    (s : Poll) (c f : ℕ) (d : Direction)
    → IsValid s
    → fd_of s c ≡ some f
    → s.n < s.size
    → s.n < invalid_index
    → (s' : Poll) × (poll_add_event s (event_of s c d) d ≡ some s')
      × Watches s' f d
      × WatchesOthers s s' f d
unfolding poll_add_event
poll_add_event-Watches s c f d v open_ place room =
    let (s', q, v', r, others) = poll_add_event-IsValid s c f d v open_ place room in
    let ev = event_of s c d in
    let conns : s'.conns ≡ s.conns =
      subst (SameConns s) q (add_active-SameConns (with_active s ev true) ev _ d) in
    (
      s',
      q,
      (IsValid-Watches s' v' f d).1 (c, same_fd s s' c f d v v' open_ conns others c ∙ open_, r),
      SameOthers-Watches s s' c f d v v' open_ conns others,
    )

-- After an event of an open connection is deleted, poll() does not watch its direction of the
-- descriptor, whichever entry took the place of its own, and it watches every other direction and
-- descriptor as it did before.
pub poll_del_event-Watches :
    (s : Poll) (c f : ℕ) (d : Direction)
    → IsValid s
    → fd_of s c ≡ some f
    → (s' : Poll) × (poll_del_event s (event_of s c d) d ≡ some s')
      × (Watches s' f d → ⊥)
      × WatchesOthers s s' f d
unfolding poll_del_event
poll_del_event-Watches s c f d v open_ =
    let (s', q, v', gone, others) = poll_del_event-IsValid s c d v in
    let ev = event_of s c d in
    let conns : s'.conns ≡ s.conns =
      subst (SameConns s) q (del_inactive-SameConns (with_active s ev false) ev _ d) in
    (
      s',
      q,
      λ w.
          let (c', e, r) = (IsValid-Watches s' v' f d).0 w in
          let same : c' ≡ c =
            sym (v.wired.filed c' f (sym (same_fd s s' c f d v v' open_ conns others c') ∙ e))
            ∙ v.wired.filed c f open_ in
          r (ap (λ x. idx_of s' x d) same ∙ gone),
      SameOthers-Watches s s' c f d v v' open_ conns others,
    )
