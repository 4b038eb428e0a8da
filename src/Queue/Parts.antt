-- ===== src/Queue/Parts.antt =====
-- `Queue_split` and `Queue_add`: a queue cut in two, and two queues made one.
use lingx.Base.{ℕ, ◌≡◌, ◌≢◌, true, List, [], ◌∷◌, ◌++◌, arith}
use mathlib.Core.List.{append-nil}
use lingx.Queue.{Links, split, add}
use lingx.Queue.Chain.{
  has, ◌∉◌, Distinct, Chain, end_of, ne_of_not_mem, not_mem-append, Chain-frame, ne_of_mem, ne_sym,
}
use lingx.Queue.Ring.{IsRing, not_mem-snoc, prev_of_end, next_of_end}
use lingx.Queue.Runs.{Chain-cut, Chain-join, Chain-retarget, Distinct-cut, end_of-has, has-head}

-- The stores of `Queue_split`, where `s` is the node before `q` and `e` the last one.
record Cut (m g : Links) (h q n s e : ℕ) : Type 0 where
  next_n : g.next n ≡ q
  prev_q : g.prev q ≡ n
  next_s : g.next s ≡ h
  prev_h : g.prev h ≡ s
  next_e : g.next e ≡ n
  prev_n : g.prev n ≡ e
  next_same : (d : ℕ) → d ≢ n → d ≢ s → d ≢ e → g.next d ≡ m.next d
  prev_same : (d : ℕ) → d ≢ n → d ≢ h → d ≢ q → g.prev d ≡ m.prev d

split-Cut :
    (m : Links) (h q n s e : ℕ)
    → m.prev h ≡ e
    → m.prev q ≡ s
    → h ≢ n
    → q ≢ n
    → h ≢ q
    → s ≢ n
    → e ≢ n
    → s ≢ e
    → Cut m (split m h q n) h q n s e
unfolding split
split-Cut m h q n s e k k' hn qn hq sn en se = record {
  next_n = ground arith;
  prev_q = ground arith;
  next_s = ground arith;
  prev_h = ground arith;
  next_e = ground arith;
  prev_n = ground arith;
  next_same = λ d x y z. ground arith;
  prev_same = λ d x y z. ground arith;
}

module _ {m g : Links} (h q n : ℕ) (us ys : List ℕ)
    (cut : Cut m g h q n (end_of h us) (end_of q ys)) (dn : Distinct (h ∷ us))
    (dq : Distinct (q ∷ ys)) (apart : (d : ℕ) → has d (h ∷ us) ≡ true → d ∉ q ∷ ys)
    (nu : n ∉ h ∷ us) (ny : n ∉ q ∷ ys) where
  Cut-before : Chain m h us q → IsRing g h us
  unfolding has
  Cut-before c = record {
    chain =
        Chain-retarget h us q h c dn
          (λ d i z.
            cut.next_same d (ne_of_mem d n (h ∷ us) i nu) z
              (ne_sym (ne_of_mem _ d (q ∷ ys) (end_of-has q ys) (apart d i))))
          (λ d i.
            cut.prev_same d (ne_of_mem d n us i (ne_of_not_mem n h us nu).1)
              (ne_of_mem d h us i dn.0) (ne_of_not_mem d q ys (apart d (ground arith))).0)
          cut.next_s cut.prev_h;
    distinct = dn;
  }

  Cut-behind : Chain m q ys h → IsRing g n (q ∷ ys)
  unfolding has
  Cut-behind c = record {
    chain = (
      cut.next_n,
      cut.prev_q,
      Chain-retarget q ys h n c dq
          (λ d i z.
            cut.next_same d (ne_of_mem d n (q ∷ ys) i ny)
              (ne_of_mem d _ (q ∷ ys) i (apart _ (end_of-has h us))) z)
          (λ d i.
            cut.prev_same d (ne_of_mem d n ys i (ne_of_not_mem n q ys ny).1)
              (ne_of_mem d h ys i (ne_of_not_mem h q ys (apart h (has-head h us))).1)
              (ne_of_mem d q ys i dq.0))
          cut.next_e cut.prev_n,
    );
    distinct = (ny, dq);
  }

-- `Queue_split` at the node `q` leaves the nodes before it in the queue, and moves `q` and those
-- behind it to the queue `n`.
split-IsRing :
    (m : Links) (h q n : ℕ) (us ys : List ℕ)
    → IsRing m h (us ++ q ∷ ys)
    → n ∉ h ∷ us ++ q ∷ ys
    → IsRing (split m h q n) h us × IsRing (split m h q n) n (q ∷ ys)
split-IsRing m h q n us ys ring out =
    let parts = Chain-cut m h us q ys h ring.chain in
    let apart = Distinct-cut (h ∷ us) (q ∷ ys) ring.distinct in
    let outs = not_mem-append n (h ∷ us) (q ∷ ys) out in
    let s_has = end_of-has h us in
    let e_has = end_of-has q ys in
    let cut =
      split-Cut m h q n (end_of h us) (end_of q ys) (prev_of_end m q ys h parts.1)
        (prev_of_end m h us q parts.0) (ne_sym (ne_of_not_mem n h us outs.0).0)
        (ne_sym (ne_of_not_mem n q ys outs.1).0)
        (ne_of_not_mem h q ys (apart.2 h (has-head h us))).0 (ne_of_mem _ n (h ∷ us) s_has outs.0)
        (ne_of_mem _ n (q ∷ ys) e_has outs.1)
        (ne_sym (ne_of_mem _ _ (q ∷ ys) e_has (apart.2 _ s_has))) in
    (
      Cut-before h q n us ys cut apart.0 apart.1 apart.2 outs.0 outs.1 parts.0,
      Cut-behind h q n us ys cut apart.0 apart.1 apart.2 outs.0 outs.1 parts.1,
    )

-- The stores of `Queue_add`, where `s` and `e` are the last nodes and `y` is the first of `n`.
record Merge (m g : Links) (h s y e : ℕ) : Type 0 where
  next_s : g.next s ≡ y
  prev_y : g.prev y ≡ s
  next_e : g.next e ≡ h
  prev_h : g.prev h ≡ e
  next_same : (d : ℕ) → d ≢ s → d ≢ e → g.next d ≡ m.next d
  prev_same : (d : ℕ) → d ≢ y → d ≢ h → g.prev d ≡ m.prev d

add-Merge :
    (m : Links) (h n s y e : ℕ)
    → m.prev h ≡ s
    → m.next n ≡ y
    → m.prev n ≡ e
    → n ≢ s
    → n ≢ y
    → h ≢ y
    → s ≢ e
    → Merge m (add m h n) h s y e
unfolding add
add-Merge m h n s y e k k' k'' ns ny hy se = record {
  next_s = ground arith;
  prev_y = ground arith;
  next_e = ground arith;
  prev_h = ground arith;
  next_same = λ d x z. ground arith;
  prev_same = λ d x z. ground arith;
}

Merge-IsRing :
    {m g : Links} (h n : ℕ) (xs : List ℕ) (y : ℕ) (ys : List ℕ)
    → Merge m g h (end_of h xs) y (end_of y ys)
    → Chain m h xs h
    → Chain m y ys n
    → Distinct ((h ∷ xs) ++ y ∷ ys)
    → IsRing g h (xs ++ y ∷ ys)
unfolding has
Merge-IsRing h n xs y ys t c k dn =
    let (dh, dy, apart) = Distinct-cut (h ∷ xs) (y ∷ ys) dn in
    record {
      chain =
          Chain-join _ h xs y ys h
            (Chain-retarget h xs h y c dh
              (λ d i z.
                t.next_same d z (ne_sym (ne_of_mem _ d (y ∷ ys) (end_of-has y ys) (apart d i))))
              (λ d i.
                t.prev_same d (ne_of_not_mem d y ys (apart d (ground arith))).0
                  (ne_of_mem d h xs i dh.0))
              t.next_s t.prev_y)
            (Chain-retarget y ys n h k dy
              (λ d i z. t.next_same d (ne_of_mem d _ (y ∷ ys) i (apart _ (end_of-has h xs))) z)
              (λ d i.
                t.prev_same d (ne_of_mem d y ys i dy.0)
                  (ne_of_mem d h ys i (ne_of_not_mem h y ys (apart h (has-head h xs))).1))
              t.next_e t.prev_h);
      distinct = dn;
    }

add_nothing :
    (m : Links) (h n s : ℕ)
    → m.prev h ≡ s
    → m.next n ≡ n
    → m.prev n ≡ n
    → m.next s ≡ h
    → n ≢ s
    → n ≢ h
    → ((d : ℕ) → (add m h n).next d ≡ m.next d) × ((d : ℕ) → d ≢ n → (add m h n).prev d ≡ m.prev d)
unfolding add
add_nothing m h n s k k' k'' e ns nh = ((λ d. ground arith), (λ d x. ground arith))

-- `Queue_add` puts the nodes of the queue `n` behind those of `h`, also if `n` holds none.
add-IsRing :
    (m : Links) (h n : ℕ) (xs ys : List ℕ)
    → IsRing m h xs
    → IsRing m n ys
    → Distinct ((h ∷ xs) ++ ys)
    → n ∉ h ∷ xs
    → IsRing (add m h n) h (xs ++ ys)
add-IsRing m h n xs [] r k dn out =
    let s_has = end_of-has h xs in
    let whole = append-nil xs in
    let end_next = next_of_end m h xs [] h (rw whole r.chain) in
    let same =
      add_nothing m h n _ (prev_of_end m h xs h r.chain) k.chain.0 k.chain.1 end_next
        (ne_sym (ne_of_mem _ n (h ∷ xs) s_has out)) (ne_of_not_mem n h xs out).0 in
    rw whole (record {
      chain =
          Chain-frame h xs h r.chain (λ c i. same.0 c)
            (λ c i. same.1 c (
              let o = ne_of_not_mem n h xs out in
              ne_of_mem c n (xs ++ h ∷ []) i (not_mem-snoc n xs h o.1 o.0)));
      distinct = r.distinct;
    })
add-IsRing m h n xs (y ∷ ys) r k dn out =
    let (dh, dy, apart) = Distinct-cut (h ∷ xs) (y ∷ ys) dn in
    Merge-IsRing h n xs y ys
      (add-Merge m h n _ y _ (prev_of_end m h xs h r.chain) k.chain.0
        (prev_of_end m y ys n k.chain.2) (ne_sym (ne_of_mem _ n (h ∷ xs) (end_of-has h xs) out))
        (ne_of_not_mem n y ys k.distinct.0).0 (ne_of_not_mem h y ys (apart h (has-head h xs))).0
        (ne_sym (ne_of_mem _ _ (y ∷ ys) (end_of-has y ys) (apart _ (end_of-has h xs)))))
      r.chain k.chain.2 dn

-- A queue that is split and whose parts are added together again holds its nodes in their order; in
-- between, the queue `n` holds the nodes from `q` on.
pub add-split :
    (m : Links) (h q n : ℕ) (us ys : List ℕ)
    → IsRing m h (us ++ q ∷ ys)
    → n ∉ h ∷ us ++ q ∷ ys
    → IsRing (split m h q n) h us
      × IsRing (split m h q n) n (q ∷ ys)
      × IsRing (add (split m h q n) h n) h (us ++ q ∷ ys)
add-split m h q n us ys ring out =
    let (before, behind) = split-IsRing m h q n us ys ring out in
    (
      before,
      behind,
      add-IsRing (split m h q n) h n us (q ∷ ys) before behind ring.distinct
          (not_mem-append n (h ∷ us) (q ∷ ys) out).0,
    )
