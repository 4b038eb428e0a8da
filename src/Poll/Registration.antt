-- ===== src/Poll/Registration.antt =====
-- Adding and deleting an event change its registration and no other.
use lingx.Base.{
  ℕ, ◌+◌, ◌-◌, ◌≤◌, ◌<◌, ◌≡◌, refl, sym, ap, ◌∙◌, ◌≢◌, ◌↔◌, inl, inr, true, false, not, Option,
  some, arith, ◌==◌, if◌then◌else◌, lt→ltb, Bool-cases, if_cases,
}
use mathlib.Core.Path.{subst}
use lingx.Poll.{
  Direction, other, Poll, invalid_index, event_of, with_index, with_active, new_entry, join_entry,
  leave_entry, add_active, poll_add_event, del_inactive, poll_del_event,
}
use lingx.Poll.Changes.{
  fd_of, idx_of, IsValid, idx_of-with_active, with_active-IsValid, new_entry-IsValid,
  idx_of-new_entry, idx_of-join_entry, idx_of-leave_entry, join_entry-IsValid, leave_entry-IsValid,
}
use lingx.Poll.Changes.Drop.{has_last, drop_entry-IsValid}
use lingx.Poll.Directions.{is_event, is_event_self, event_elim}
use lingx.Queue.Sort.{place}

-- The event is in the table.
abbrev pub IsRegistered : Poll → ℕ → Direction → Type 0
IsRegistered s c d = idx_of s c d ≢ invalid_index

-- Between two states the registration of every other event is the same.
abbrev pub SameOthers : Poll → Poll → ℕ → Direction → Type 0
SameOthers s s' c d =
    (c' : ℕ) (d' : Direction)
    → is_event c d c' d' ≡ false
    → IsRegistered s' c' d' ↔ IsRegistered s c' d'

-- The state is valid, and the index of one event is `x`, the others as they were.
abbrev HasIndex : Poll → ℕ → Direction → ℕ → Poll → Type 0
HasIndex s c d x s' =
    IsValid s'
    × ((c' : ℕ) (d' : Direction)
        → idx_of s' c' d' ≡ (if is_event c d c' d' then x else idx_of s c' d'))

HasIndex-self : (s : Poll) (c : ℕ) (d : Direction) → IsValid s → HasIndex s c d (idx_of s c d) s
HasIndex-self s c d v = (
  v,
  event_elim
      (λ c' d'. idx_of s c' d' ≡ (if is_event c d c' d' then idx_of s c d else idx_of s c' d')) c d
      (rw (is_event_self c d) refl) (ground arith) (λ c' d' ne. ground arith),
)

-- The call returns a state with such an index.
abbrev Adds : Poll → ℕ → Direction → Option Poll → Type 0
Adds s c d r = (s' : Poll) × (r ≡ some s') × ((x : ℕ) × (x ≢ invalid_index) × HasIndex s c d x s')

add_active-Adds :
    (s : Poll) (c f : ℕ) (d : Direction)
    → IsValid s
    → fd_of s c ≡ some f
    → s.n < s.size
    → s.n < invalid_index
    → Adds s c d (add_active s (event_of s c d) c d)
unfolding add_active
add_active-Adds s c f d v open_ place room =
    if_cases (Adds s c d) (not (idx_of s c d == invalid_index))
      (λ e. (s, refl, (idx_of s c d, ground arith, HasIndex-self s c d v)))
      (λ e.
        let none_ : idx_of s c d ≡ invalid_index = ground arith in
        if_cases (Adds s c d) (idx_of s c (other d) == invalid_index)
          (λ g. rw (lt→ltb s.n s.size place) (
            new_entry s (event_of s c d) c d,
            refl,
            (
              s.n,
              omega arith,
              (
                new_entry-IsValid s v c d f open_ none_ (ground arith) room,
                idx_of-new_entry s v c d,
              ),
            ),
          ))
          (λ g. (
            join_entry s (event_of s c d) (idx_of s c (other d)) d,
            refl,
            (
              idx_of s c (other d),
              ground arith,
              (
                join_entry-IsValid s v c d none_ (ground arith),
                idx_of-join_entry s v c d (idx_of s c (other d)),
              ),
            ),
          )))

moved_valid :
    (x m j n : ℕ)
    → m + 1 ≡ n
    → n ≤ invalid_index
    → j ≢ invalid_index
    → ((if x == m then j else x) ≢ invalid_index) ↔ (x ≢ invalid_index)
moved_valid x m j n h le v = elim (Bool-cases (x == m)) [
  | inl e ↦ let at_m : x ≡ m = ground arith in rw e (λ k z. absurd (omega arith), λ k. v)
  | inr e ↦ rw e (λ k. k, λ k. k)
]

SameIndex-IsRegistered :
    (s s' : Poll) (c : ℕ) (d : Direction)
    → idx_of s' c d ≡ idx_of s c d
    → IsRegistered s' c d ↔ IsRegistered s c d
SameIndex-IsRegistered s s' c d e = (λ h z. h (e ∙ z), λ h z. h (sym e ∙ z))

del_inactive-effect :
    (s : Poll) (c : ℕ) (d : Direction)
    → IsValid s
    → (s' : Poll) × (del_inactive s (event_of s c d) c d ≡ some s')
      × IsValid s'
      × (idx_of s' c d ≡ invalid_index)
      × SameOthers s s' c d
unfolding del_inactive
del_inactive-effect s c d v =
    let ev = event_of s c d in
    let i = idx_of s c d in
    let j = idx_of s c (other d) in
    elim (Bool-cases (i == invalid_index)) [
      | inl e ↦ (s, rw e refl, v, ground arith, λ c' d' o. SameIndex-IsRegistered s s c' d' refl)
      | inr e ↦
          let some_ : i ≢ invalid_index = ground arith in
          elim (Bool-cases (j == invalid_index)) [
            | inl g ↦
                let none_other : j ≡ invalid_index = ground arith in
                let (s2, q, valid, moved) = drop_entry-IsValid s v c d some_ none_other in
                (
                  with_index s2 ev invalid_index,
                  rw (e, g, q) refl,
                  valid,
                  moved c d ∙ rw (is_event_self c d) refl,
                  λ c' d' o.
                      let to : idx_of (with_index s2 ev invalid_index) c' d'
                          ≡ (if idx_of s c' d' == s.n - 1 then i else idx_of s c' d') =
                        rw (moved c' d', o) refl in
                      let k =
                        moved_valid (idx_of s c' d') (s.n - 1) i s.n
                          (has_last s v c d some_ none_other) v.fits.small some_ in
                      (λ h. k.0 (λ z. h (to ∙ z)), λ h z. k.1 h (sym to ∙ z)),
                )
            | inr g ↦
                let point = idx_of-leave_entry s v c d j in
                (
                  leave_entry s ev j d,
                  rw (e, g) refl,
                  leave_entry-IsValid s v c d some_ (ground arith),
                  point c d ∙ rw (is_event_self c d) refl,
                  λ c' d' o.
                      SameIndex-IsRegistered s (leave_entry s ev j d) c' d'
                        (point c' d' ∙ rw o refl),
                )
          ]
    ]

-- Adding an event of an open connection returns, with a valid table in which the event is registered,
-- whether or not the connection has an entry and whether or not it was registered before, and no
-- other event's registration changes, if the array has room for an entry and the number of entries
-- has not reached the invalid index.
pub poll_add_event-IsValid :
    (s : Poll) (c f : ℕ) (d : Direction)
    → IsValid s
    → fd_of s c ≡ some f
    → s.n < s.size
    → s.n < invalid_index
    → (s' : Poll) × (poll_add_event s (event_of s c d) d ≡ some s')
      × IsValid s'
      × IsRegistered s' c d
      × SameOthers s s' c d
unfolding poll_add_event
poll_add_event-IsValid s c f d v open_ place room =
    let ev = event_of s c d in
    let s1 = with_active s ev true in
    let (s', q, (x, ne, valid_point)) =
      add_active-Adds s1 c f d (with_active-IsValid s ev true v) open_ place room in
    let same = λ (c' : ℕ) (d' : Direction). ap (λ g. g c' d') (idx_of-with_active s ev true) in
    (
      s',
      ap (λ c0. add_active s1 ev c0 d) (v.wired.conn_of c d) ∙ q,
      valid_point.0,
      λ z. ne (sym (valid_point.1 c d ∙ rw (is_event_self c d) refl) ∙ z),
      λ c' d' o. SameIndex-IsRegistered s s' c' d' (valid_point.1 c' d' ∙ rw o (same c' d')),
    )

-- Deleting an event never reads the table of files at a closed entry: it returns, with a valid
-- table in which the event is not registered and the registration of every other event is as it was.
pub poll_del_event-IsValid :
    (s : Poll) (c : ℕ) (d : Direction)
    → IsValid s
    → (s' : Poll) × (poll_del_event s (event_of s c d) d ≡ some s')
      × IsValid s'
      × (idx_of s' c d ≡ invalid_index)
      × SameOthers s s' c d
unfolding poll_del_event
poll_del_event-IsValid s c d v =
    let ev = event_of s c d in
    let s1 = with_active s ev false in
    let (s', q, valid, gone, others) =
      del_inactive-effect s1 c d (with_active-IsValid s ev false v) in
    (
      s',
      ap (λ c0. del_inactive s1 ev c0 d) (v.wired.conn_of c d) ∙ q,
      valid,
      gone,
      subst
          (λ idx.
            (c' : ℕ) (d' : Direction)
            → is_event c d c' d' ≡ false
            → IsRegistered s' c' d' ↔ (idx c' d' ≢ invalid_index))
          (idx_of-with_active s ev false) others,
    )
