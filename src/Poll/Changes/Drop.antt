-- ===== src/Poll/Changes/Drop.antt =====
-- Dropping an entry keeps the entries and the indices of the events together.
use lingx.Base.{
  ℕ, ◌+◌, ◌-◌, ◌≤◌, ◌≡◌, refl, sym, ap, ◌∙◌, ◌≢◌, inl, inr, Bool, true, false, ◌&&◌, some, arith,
  ltb, ◌==◌, if◌then◌else◌, Bool-cases,
}
use lingx.Poll.{
  Direction, pollin, pollout, other, Poll, invalid_index, store, event_of, with_index, move_both,
  drop_entry,
}
use lingx.Poll.Changes.{
  fd_of, idx_of, Wired, IsValid, idx_of-with_index, Wired-array, Wired-with_index,
}
use lingx.Poll.Table.{owner_is}
use lingx.Poll.Directions.{is_event, event_elim}
use lingx.Poll.Table.Swap.{Consistent-swap}

Wired-move_both : (s : Poll) (m i c : ℕ) → Wired s → Wired (move_both m i s c)
Wired-move_both s m i c w = Wired-with_index _ _ _ (Wired-with_index _ _ _ w)

choose_true : (b : Bool) (x y : ℕ) → b ≡ true → (if b then x else y) ≡ x
choose_true b x y e = rw e refl

choose_false : (b : Bool) (x y : ℕ) → b ≡ false → (if b then x else y) ≡ y
choose_false b x y e = rw e refl

abbrev moved_to : ℕ → ℕ → ℕ → ℕ
moved_to m i x = if x == m then i else x

of_self : (c m i x : ℕ) → moved_to m i x ≡ (if (c == c) && (x == m) then i else x)
of_self c m i x = ground arith

of_other : (c c' m i x : ℕ) → c' ≢ c → x ≡ (if (c' == c) && (x == m) then i else x)
of_other c c' m i x ne = ground arith

below_invalid : (n x m : ℕ) → m + 1 ≡ n → n ≤ invalid_index → x ≡ m → x ≢ invalid_index
below_invalid n x m h le e z = absurd (omega arith)

only_owner :
    (c' c2 m j x : ℕ)
    → (x ≡ m → c' ≡ c2)
    → (if (c' == c2) && (x == m) then j else x) ≡ (if x == m then j else x)
only_owner c' c2 m j x owner = elim (Bool-cases (x == m)) [
  | inl e ↦ let same = owner (ground arith) in ground arith
  | inr e ↦ ground arith
]

idx_of-move_both :
    (s : Poll)
    → Wired s
    → (m i c c' : ℕ) (d' : Direction)
    → idx_of (move_both m i s c) c' d'
      ≡ (if (c' == c) && (idx_of s c' d' == m) then i else idx_of s c' d')
idx_of-move_both s w m i c =
    let v = moved_to m i (idx_of s c pollin) in
    let s1 = with_index s (event_of s c pollin) v in
    let w1 = Wired-with_index s (event_of s c pollin) v w in
    let u = moved_to m i (idx_of s1 c pollout) in
    let first = idx_of-with_index s w c pollin v in
    let second = idx_of-with_index s1 w1 c pollout u in
    event_elim
      (λ c' d'.
        idx_of (move_both m i s c) c' d'
        ≡ (if (c' == c) && (idx_of s c' d' == m) then i else idx_of s c' d'))
      c pollin
      (second c pollin
        ∙ choose_false _ u (idx_of s1 c pollin) (ground arith)
        ∙ first c pollin
        ∙ choose_true _ v (idx_of s c pollin) (ground arith)
        ∙ of_self c m i (idx_of s c pollin))
      (second c pollout
        ∙ choose_true _ u (idx_of s1 c pollout) (ground arith)
        ∙ ap (moved_to m i) (first c pollout ∙ choose_false _ v (idx_of s c pollout) (ground arith))
        ∙ of_self c m i (idx_of s c pollout))
      (λ c' d' ne.
        second c' d'
        ∙ choose_false _ u (idx_of s1 c' d') (ground arith)
        ∙ first c' d'
        ∙ choose_false _ v (idx_of s c' d') (ground arith)
        ∙ of_other c c' m i (idx_of s c' d') ne)

module _ (s : Poll) (v : IsValid s) (c : ℕ) (d : Direction) (some_ : idx_of s c d ≢ invalid_index)
    (none_other : idx_of s c (other d) ≡ invalid_index) where
  abbrev pub last_ : ℕ
  last_ = s.n - 1

  -- The array with the last entry in the place of the one that is dropped.
  abbrev replaced : Poll
  replaced = record s { n = last_; entries = store s.entries (idx_of s c d) (s.entries last_) }

  pub has_last : last_ + 1 ≡ s.n
  has_last = omega (arith, (v.fits.placed c d some_).0)

  -- The index that each event has after the entry was dropped and the event was taken out.
  abbrev pub Swapped : Poll → Type 0
  Swapped s2 =
      (c' : ℕ) (d' : Direction)
      → idx_of (with_index s2 (event_of s c d) invalid_index) c' d' ≡ (
          if is_event c d c' d'
          then invalid_index
          else if idx_of s c' d' == last_
          then idx_of s c d
          else idx_of s c' d')

  drop_entry-moves :
      (f : ℕ)
      → ltb (idx_of s c d) last_ ≡ true
      → (s.entries last_).fd ≡ some f
      → fd_of s (s.files f) ≡ some f
      → drop_entry s (idx_of s c d) ≡ some (move_both last_ (idx_of s c d) replaced (s.files f))
  unfolding drop_entry
  drop_entry-moves f e q r = rw e (simp (q, r))

  drop_entry-shrinks :
      ltb (idx_of s c d) last_ ≡ false → drop_entry s (idx_of s c d) ≡ some (record s { n = last_ })
  unfolding drop_entry
  drop_entry-shrinks e = rw e refl

  moves-Swapped :
      (f : ℕ)
      → (s.entries last_).fd ≡ some f
      → Swapped (move_both last_ (idx_of s c d) replaced (s.files f))
  moves-Swapped f q c' d' =
      let c2 = s.files f in
      let j = idx_of s c d in
      let w = Wired-array s _ _ v.wired in
      let s2 = move_both last_ j replaced c2 in
      let owner : idx_of s c' d' ≡ last_ → c' ≡ c2 = λ e. sym (
        owner_is (fd_of s) s.files v.wired.filed (idx_of s) s.entries s.n v.fits c' d'
          (below_invalid (s.n) (idx_of s c' d') last_ has_last v.fits.small e) last_ f e q) in
      idx_of-with_index s2 (Wired-move_both replaced last_ j c2 w) c d invalid_index c' d'
      ∙ ap (λ x. if is_event c d c' d' then invalid_index else x)
          (idx_of-move_both replaced w last_ j c2 c' d'
            ∙ only_owner c' c2 last_ j (idx_of s c' d') owner)

  pub drop_entry-IsValid :
      (s2 : Poll) × (drop_entry s (idx_of s c d) ≡ some s2)
      × IsValid (with_index s2 (event_of s c d) invalid_index)
      × Swapped s2
  drop_entry-IsValid =
      let (f, q, r, _, _) = v.fits.owned last_ (omega (arith, has_last)) in
      elim (Bool-cases (ltb (idx_of s c d) last_)) [
        | inl e ↦ (
          move_both last_ (idx_of s c d) replaced (s.files f),
          drop_entry-moves f e q r,
          record {
            wired =
                Wired-with_index _ _ _
                  (Wired-move_both replaced last_ _ _ (Wired-array s _ _ v.wired));
            fits =
                Consistent-swap (fd_of s) s.files v.wired.filed (idx_of s) s.entries s.n v.fits c d
                  _ _ last_ some_ none_other has_last (moves-Swapped f q) (λ i lt. ground arith);
          },
          moves-Swapped f q,
        )
        | inr e ↦
            let shrunk : Poll = record s { n = last_ } in
            let at_end : idx_of s c d ≡ last_ = ground (arith, (v.fits.placed c d some_).0) in
            let swapped : Swapped shrunk = λ c' d'.
              idx_of-with_index shrunk (Wired-array s _ _ v.wired) c d invalid_index c' d'
              ∙ ap (λ x. if is_event c d c' d' then invalid_index else x) (ground arith) in
            (
              shrunk,
              drop_entry-shrinks e,
              record {
                wired = Wired-with_index _ _ _ (Wired-array s _ _ v.wired);
                fits =
                    Consistent-swap (fd_of s) s.files v.wired.filed (idx_of s) s.entries s.n v.fits
                      c d _ _ last_ some_ none_other has_last swapped (λ i lt. ground arith);
              },
              swapped,
            )
      ]
