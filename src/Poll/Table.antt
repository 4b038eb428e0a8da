-- ===== src/Poll/Table.antt =====
-- When the entries and the indices of the events fit together, for any assignment of indices to the
-- two events of each connection, and what a change of one index keeps of it.
pub mod Swap
use lingx.Base.{
  ℕ, ◌+◌, ◌≤◌, ◌<◌, ◌≡◌, refl, sym, ap, ◌∙◌, ◌≢◌, inl, inr, true, false, ◌&&◌, Option, some, arith,
  ◌==◌, if◌then◌else◌, Bool-cases,
}
use lingx.Poll.{Direction, other, same_direction, PollFd, invalid_index}
use lingx.Poll.Directions.{
  is_event, other-other, other_direction, same_self, other_differs, same_direction-eq, event_elim,
}
use lingx.Queue.{last}

pub record Consistent (fd : ℕ → Option ℕ) (files : ℕ → ℕ) (idx : ℕ → Direction → ℕ)
    (entries : ℕ → PollFd) (n : ℕ) : Type 0 where
  pub placed :
      (c : ℕ) (d : Direction)
      → idx c d ≢ invalid_index
      → (idx c d < n) × ((entries (idx c d)).fd ≡ fd c) × ((entries (idx c d)).asked d ≡ true)
  pub paired :
      (c : ℕ) (d : Direction)
      → idx c d ≢ invalid_index
      → idx c (other d) ≢ invalid_index
      → idx c d ≡ idx c (other d)
  pub owned :
      (i : ℕ)
      → i < n
      → (f : ℕ) × ((entries i).fd ≡ some f)
        × (fd (files f) ≡ some f)
        × ((d : Direction) → (entries i).asked d ≡ true → idx (files f) d ≡ i)
        × ((d : Direction) × (idx (files f) d ≡ i))
  pub small : n ≤ invalid_index

module _ (fd : ℕ → Option ℕ) (files : ℕ → ℕ) (wired : (c f : ℕ) → fd c ≡ some f → files f ≡ c)
    (idx : ℕ → Direction → ℕ) (entries : ℕ → PollFd) (n : ℕ)
    (k : Consistent fd files idx entries n) where
  -- An entry belongs to one connection.
  pub one_owner :
      (c c' : ℕ) (d d' : Direction)
      → idx c d ≢ invalid_index
      → idx c' d' ≢ invalid_index
      → idx c d ≡ idx c' d'
      → c ≡ c'
  one_owner c c' d d' v v' e =
      let p = k.placed c d v in
      let p' = k.placed c' d' v' in
      let (f, q, r, _, _) = k.owned (idx c d) p.0 in
      let same : fd c' ≡ some f = sym p'.1 ∙ ap (λ i. (entries i).fd) (sym e) ∙ q in
      sym (wired c f (sym p.1 ∙ q)) ∙ wired c' f same

  pub owner_is :
      (c : ℕ) (d : Direction)
      → idx c d ≢ invalid_index
      → (i f : ℕ) → idx c d ≡ i
      → (entries i).fd ≡ some f
      → files f ≡ c
  owner_is c d v i f e q = wired c f (sym (k.placed c d v).1 ∙ ap (λ x. (entries x).fd) e ∙ q)

  module _ (c : ℕ) (d : Direction) (idx' : ℕ → Direction → ℕ) (entries' : ℕ → PollFd) (v : ℕ)
      (new_idx : (c' : ℕ) (d' : Direction)
        → idx' c' d' ≡ (if is_event c d c' d' then v else idx c' d')) where
    changed : idx' c d ≡ v
    changed = rw (new_idx c d, same_self d) (ground arith)

    sibling : idx' c (other d) ≡ idx c (other d)
    sibling = rw (new_idx c (other d), other_differs d) (ground arith)

    stranger : (c' : ℕ) (d' : Direction) → c' ≢ c → idx' c' d' ≡ idx c' d'
    stranger c' d' ne = rw (new_idx c' d') (ground arith)

    survives : (i : ℕ) → i ≢ idx c d → (c' : ℕ) (d' : Direction) → idx c' d' ≡ i → idx' c' d' ≡ i
    survives i ne =
        event_elim (λ c' d'. idx c' d' ≡ i → idx' c' d' ≡ i) c d (λ e. absurd (ne (sym e)))
          (λ e. sibling ∙ e) (λ c' d' other_c e. stranger c' d' other_c ∙ e)

    stranger_paired :
        (c' : ℕ) (d' : Direction)
        → c' ≢ c
        → idx' c' d' ≢ invalid_index
        → idx' c' (other d') ≢ invalid_index
        → idx' c' d' ≡ idx' c' (other d')
    stranger_paired c' d' ne h h' =
        let r = stranger c' d' ne in
        let r' = stranger c' (other d') ne in
        r ∙ k.paired c' d' (λ z. h (r ∙ z)) (λ z. h' (r' ∙ z)) ∙ sym r'

    -- A new entry for an event whose connection has none.
    pub Consistent-fresh :
        (f : ℕ)
        → fd c ≡ some f
        → idx c d ≡ invalid_index
        → idx c (other d) ≡ invalid_index
        → v ≡ n
        → n < invalid_index
        → ((i : ℕ) → i ≢ n → entries' i ≡ entries i)
        → (entries' n).fd ≡ fd c
        → ((x : Direction) → (entries' n).asked x ≡ same_direction x d)
        → Consistent fd files idx' entries' (n + 1)
    Consistent-fresh f open_ none_ none_other e room old here bits =
        let owner = wired c f open_ in
        record {
          placed =
              event_elim
                (λ c' d'.
                  idx' c' d' ≢ invalid_index
                  → (idx' c' d' < n + 1)
                    × ((entries' (idx' c' d')).fd ≡ fd c')
                    × ((entries' (idx' c' d')).asked d' ≡ true))
                c d (λ h. rw (changed, e) (omega arith, here, bits d ∙ same_self d))
                (λ h. absurd (h (sibling ∙ none_other)))
                (λ c' d' ne h.
                  let r = stranger c' d' ne in
                  let p = k.placed c' d' (λ z. h (r ∙ z)) in
                  rw (r, old (idx c' d') (omega (arith, p.0))) (omega (arith, p.0), p.1, p.2));
          paired =
              event_elim
                (λ c' d'.
                  idx' c' d' ≢ invalid_index
                  → idx' c' (other d') ≢ invalid_index
                  → idx' c' d' ≡ idx' c' (other d'))
                c d (λ h h'. absurd (h' (sibling ∙ none_other)))
                (λ h h'. absurd (h (sibling ∙ none_other))) stranger_paired;
          owned = λ i lt. elim (Bool-cases (i == n)) [
            | inl last ↦
                let at_n : i ≡ n = ground arith in
                rw (at_n) (
                  f,
                  here ∙ open_,
                  rw owner open_,
                  λ x a. rw (owner, same_direction-eq d x (sym (bits x) ∙ a)) (changed ∙ e),
                  (d, rw owner (changed ∙ e)),
                )
            | inr before ↦
                let not_n : i ≢ n = ground arith in
                let (f', q, r, b, own) = k.owned i (omega arith) in
                let keep = survives i (omega arith) (files f') in
                rw (old i not_n) (f', q, r, λ x a. keep x (b x a), (own.0, keep own.0 own.1))
          ];
          small = omega arith;
        }

    -- An event joins the entry of the other event of its connection.
    pub Consistent-join :
        idx c d ≡ invalid_index
        → idx c (other d) ≢ invalid_index
        → v ≡ idx c (other d)
        → ((i : ℕ) → (entries' i).fd ≡ (entries i).fd)
        → ((i : ℕ) (x : Direction)
            → (entries' i).asked x
              ≡ (if i == v && same_direction x d then true else (entries i).asked x))
        → Consistent fd files idx' entries' n
    Consistent-join none_ some_other e fds bits =
        let at_other = k.placed c (other d) some_other in
        record {
          placed =
              event_elim
                (λ c' d'.
                  idx' c' d' ≢ invalid_index
                  → (idx' c' d' < n)
                    × ((entries' (idx' c' d')).fd ≡ fd c')
                    × ((entries' (idx' c' d')).asked d' ≡ true))
                c d
                (λ h.
                  rw (changed, bits v d, same_self d, fds v)
                    (omega (arith, e, at_other.0), rw e at_other.1, ground arith))
                (λ h.
                  rw (sibling, bits (idx c (other d)) (other d), fds (idx c (other d)), at_other.2)
                    (at_other.0, at_other.1, ground arith))
                (λ c' d' ne h.
                  let r = stranger c' d' ne in
                  let p = k.placed c' d' (λ z. h (r ∙ z)) in
                  rw (r, bits (idx c' d') d', fds (idx c' d'), p.2) (p.0, p.1, ground arith));
          paired =
              event_elim
                (λ c' d'.
                  idx' c' d' ≢ invalid_index
                  → idx' c' (other d') ≢ invalid_index
                  → idx' c' d' ≡ idx' c' (other d'))
                c d (λ h h'. changed ∙ e ∙ sym sibling)
                (λ h h'. rw (other-other d) (sibling ∙ sym e ∙ sym changed)) stranger_paired;
          owned = λ i lt.
              let (f, q, r, b, own) = k.owned i lt in
              let keep = survives i (λ z. omega (arith, k.small)) (files f) in
              (
                f,
                fds i ∙ q,
                r,
                λ x a. elim (Bool-cases (i == v && same_direction x d)) [
                  | inl new ↦
                      let at_v : i ≡ v = ground arith in
                      let x_d = same_direction-eq d x (ground arith) in
                      let owner = owner_is c (other d) some_other i f (sym e ∙ sym at_v) q in
                      rw (owner, x_d) (changed ∙ sym at_v)
                  | inr old ↦ keep x (b x (sym (rw (bits i x, old) refl) ∙ a))
                ],
                (own.0, keep own.0 own.1),
              );
          small = k.small;
        }

    -- An event leaves the entry that it shares with the other one.
    pub Consistent-leave :
        idx c d ≢ invalid_index
        → idx c (other d) ≢ invalid_index
        → v ≡ invalid_index
        → ((i : ℕ) → (entries' i).fd ≡ (entries i).fd)
        → ((i : ℕ) (x : Direction)
            → (entries' i).asked x
              ≡ (if i == idx c (other d) && same_direction x d then false else (entries i).asked x))
        → Consistent fd files idx' entries' n
    Consistent-leave some_ some_other e fds bits =
        let at_other = k.placed c (other d) some_other in
        let pair = k.paired c d some_ some_other in
        record {
          placed =
              event_elim
                (λ c' d'.
                  idx' c' d' ≢ invalid_index
                  → (idx' c' d' < n)
                    × ((entries' (idx' c' d')).fd ≡ fd c')
                    × ((entries' (idx' c' d')).asked d' ≡ true))
                c d (λ h. absurd (h (changed ∙ e)))
                (λ h.
                  rw
                    (
                      sibling,
                      bits (idx c (other d)) (other d),
                      fds (idx c (other d)),
                      other_differs d,
                    )
                    (at_other.0, at_other.1, ground (arith, at_other.2)))
                (λ c' d' ne h.
                  let r = stranger c' d' ne in
                  let v' : idx c' d' ≢ invalid_index = λ z. h (r ∙ z) in
                  let p = k.placed c' d' v' in
                  let apart : idx c' d' ≢ idx c (other d) =
                    λ z. ne (one_owner c' c d' (other d) v' some_other z) in
                  rw (r, bits (idx c' d') d', fds (idx c' d')) (p.0, p.1, ground (arith, p.2)));
          paired =
              event_elim
                (λ c' d'.
                  idx' c' d' ≢ invalid_index
                  → idx' c' (other d') ≢ invalid_index
                  → idx' c' d' ≡ idx' c' (other d'))
                c d (λ h h'. absurd (h (changed ∙ e)))
                (λ h h'. absurd (h' (rw (other-other d) (changed ∙ e)))) stranger_paired;
          owned = λ i lt.
              let (f, q, r, b, own) = k.owned i lt in
              elim (Bool-cases (i == idx c (other d))) [
                | inl here ↦
                    let at_i : i ≡ idx c (other d) = ground arith in
                    let owner : files f ≡ c = owner_is c (other d) some_other i f (sym at_i) q in
                    (
                      f,
                      fds i ∙ q,
                      r,
                      λ x a. elim (Bool-cases (same_direction x d)) [
                        | inl gone ↦
                            let cleared : (entries' i).asked x ≡ false =
                              rw (bits i x, here, gone) refl in
                            absurd (cc (sym cleared ∙ a))
                        | inr stays ↦ rw (owner, other_direction d x stays) (sibling ∙ sym at_i)
                      ],
                      (other d, rw owner (sibling ∙ sym at_i)),
                    )
                | inr there ↦
                    let not_i : i ≢ idx c d = ground (arith, pair) in
                    let keep = survives i not_i (files f) in
                    (
                      f,
                      fds i ∙ q,
                      r,
                      λ x a. keep x (b x (sym (rw (bits i x) (ground arith)) ∙ a)),
                      (own.0, keep own.0 own.1),
                    )
              ];
          small = k.small;
        }
