-- ===== src/Io/Writes.antt =====
-- `File::write` puts the whole buffer, whatever pieces pwrite() takes of it.
use lingx.Base.{
  ℕ, zero, suc, ◌+◌, ◌≤◌, ◌<◌, ◌≡◌, refl, sym, ap, ◌∙◌, ◌≢◌, inl, inr, some, List, [], ◌∷◌, ◌++◌,
  arith, ◌==◌, Bool-cases, length, take, drop, take-append-drop,
}
use lingx.Io.{Outcome, moved, failed, eintr, Chunk, FileWritten, accepted, file_write}

-- From `off` on, the chunks are adjacent and together are the buffer.
abbrev pub Covers : ℕ → List ℕ → List Chunk → Type 0
Covers off buf [] = buf ≡ []
Covers off buf (c ∷ cs) =
    (rest : List ℕ) × (c.at_ ≡ off)
    × (buf ≡ c.bytes ++ rest)
    × Covers (off + length c.bytes) rest cs

-- No call fails but by an interrupt, and each takes something.
abbrev pub Progress : List Outcome → Type 0
Progress [] = Unit {0}
Progress (moved k ∷ calls) = (0 < k) × Progress calls
Progress (failed err ∷ calls) = (err ≡ eintr) × Progress calls

unfoldable pub moves : List Outcome → ℕ
moves [] = 0
moves (moved k ∷ calls) = moves calls + 1
moves (failed err ∷ calls) = moves calls

abbrev pub WholeWritten : List ℕ → ℕ → ℕ → ℕ → FileWritten → Type 0
WholeWritten buf off offset written w =
    (w.rc ≡ some (written + length buf))
    × (w.offset ≡ offset + length buf)
    × Covers off buf w.chunks

length-take_le : {A : Type 0} (n : ℕ) (xs : List A) → n ≤ length xs → length (take n xs) ≡ n
length-take_le zero xs le = refl
length-take_le (suc n) [] le = absurd (omega (arith, le))
length-take_le (suc n) (x ∷ xs) le = omega (arith, length-take_le n xs (omega arith))

length-drop_le :
    {A : Type 0} (n : ℕ) (xs : List A) → n ≤ length xs → length (drop n xs) + n ≡ length xs
length-drop_le zero xs le = omega arith
length-drop_le (suc n) [] le = absurd (omega (arith, le))
length-drop_le (suc n) (x ∷ xs) le = omega (arith, length-drop_le n xs (omega arith))

drop_empty : {A : Type 0} (n : ℕ) (xs : List A) → n ≡ length xs → drop n xs ≡ []
drop_empty zero [] e = refl
drop_empty zero (x ∷ xs) e = absurd (omega arith)
drop_empty (suc n) [] e = refl
drop_empty (suc n) (x ∷ xs) e = drop_empty n xs (omega arith)

first_chunk :
    (n off : ℕ) (buf : List ℕ) (cs : List Chunk)
    → n ≤ length buf
    → Covers (off + n) (drop n buf) cs
    → Covers off buf (record { at_ = off; bytes = take n buf } ∷ cs)
first_chunk n off buf cs le c =
    (drop n buf, refl, sym (take-append-drop n buf), rw (length-take_le n buf le) c)

accepted_bounds :
    (k : ℕ) (buf : List ℕ)
    → 0 < k
    → (accepted k buf ≤ length buf) × (accepted k buf ≢ length buf → 0 < accepted k buf)
unfolding accepted
accepted_bounds k buf pos_ = (ground arith, λ ne. ground arith)

-- If no call of pwrite() fails other than by an interrupt, each call takes at least one byte, and
-- there is a call for every byte of the buffer and at least one, then `File::write` returns: with
-- the buffer's length added to what was written before, the file's offset moved by it, and the
-- chunks written adjacent from `off` on and together the buffer.
pub file_write-WholeWritten :
    (calls : List Outcome) (buf : List ℕ) (off offset written : ℕ)
    → Progress calls
    → length buf ≤ moves calls
    → 0 < moves calls
    → (w : FileWritten) × (file_write calls buf off offset written ≡ some w)
      × WholeWritten buf off offset written w
unfolding file_write moves
file_write-WholeWritten [] buf off offset written p le pos_ = absurd (omega arith)
file_write-WholeWritten (failed err ∷ calls) buf off offset written p le pos_ =
    rw p.0 (file_write-WholeWritten calls buf off offset written p.1 le pos_)
file_write-WholeWritten (moved k ∷ calls) buf off offset written p le pos_ =
    let n = accepted k buf in
    let bound = accepted_bounds k buf p.0 in
    elim (Bool-cases (n == length buf)) [
      | inl e ↦
          let whole : n ≡ length buf = ground arith in
          rw e (
            _,
            refl,
            (
              ap (λ x. some x) (omega (arith, whole)),
              omega (arith, whole),
              first_chunk n off buf [] bound.0 (drop_empty n buf whole),
            ),
          )
      | inr e ↦
          let part : n ≢ length buf = ground arith in
          let left = length-drop_le n buf bound.0 in
          let some_ : 0 < n = bound.1 part in
          let (w, q, whole) =
            file_write-WholeWritten calls (drop n buf) (off + n) (offset + n) (written + n) p.1
              (omega arith) (omega arith) in
          rw (e, q)
            (
              _,
              refl,
              (
                whole.0 ∙ ap (λ x. some x) (omega arith),
                omega (arith, whole.1),
                first_chunk n off buf w.chunks bound.0 whole.2,
              ),
            )
    ]
