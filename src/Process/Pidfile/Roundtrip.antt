-- ===== src/Process/Pidfile/Roundtrip.antt =====
-- The number that a process writes into the pid file is the one that a signal is sent to.
use lingx.Base.{
  ℕ, zero, suc, ◌+◌, ◌/◌, ◌%◌, ◌^◌, ◌≤◌, ◌<◌, ◌≡◌, refl, sym, ap, ◌∙◌, inl, inr, Bool, true, false,
  Option, none, some, List, [], ◌∷◌, ◌++◌, arith, ltb, leb, ◌==◌, lt→ltb, Bool-cases, length,
  get_or, take, replicate, length-append, get_or-append, drop_all, take-append, pos,
}
use mathlib.Core.List.{append-nil, append_assoc}
use lingx.Conf.Lexer.{start}
use lingx.Io.{Outcome, Chunk}
use lingx.Io.Writes.{Covers, Progress, moves, file_write-WholeWritten}
use lingx.Process.{process_master, signals, os_signal_process}
use lingx.Process.Pidfile.{
  max_int_len, digits, print_pid, put_chunk, put_chunks, Settings, opened_content, write_pid,
  create_pidfile, strip_end, not_negative, read_pid, kill_pid, signal_process,
}
use lingx.Strings.{int_max, atoi}
use lingx.Strings.Number.{all_digits, decimal, atoi-decimal}

digits-decimal :
    (fuel n : ℕ) (acc : List ℕ) → n < 10 ^ fuel → decimal 0 (digits fuel n acc) ≡ decimal n acc
unfolding digits decimal
digits-decimal zero n acc lt = let none_ : n ≡ 0 = omega arith in rw none_ refl
digits-decimal (suc fuel) n acc lt = elim (Bool-cases (ltb n 10)) [
  | inl e ↦ rw e (ap (λ k. decimal k acc) (omega arith))
  | inr e ↦ rw e (
      digits-decimal fuel (n / 10) ((b'0' + n % 10) ∷ acc) (omega arith)
      ∙ ap (λ k. decimal k acc) (omega arith))
]

digits-all_digits :
    (fuel n : ℕ) (acc : List ℕ) → all_digits acc ≡ true → all_digits (digits fuel n acc) ≡ true
unfolding digits all_digits
digits-all_digits zero n acc h = h
digits-all_digits (suc fuel) n acc h =
    let rest = digits-all_digits fuel (n / 10) ((b'0' + n % 10) ∷ acc) in ground (arith, h, rest)

length-digits :
    (fuel n : ℕ) (acc : List ℕ)
    → (length acc ≤ length (digits fuel n acc)) × (length (digits fuel n acc) ≤ fuel + length acc)
unfolding digits
length-digits zero n acc = (omega arith, omega arith)
length-digits (suc fuel) n acc =
    let rest = length-digits fuel (n / 10) ((b'0' + n % 10) ∷ acc) in ground (arith, rest)

get_or-all_digits :
    (ds : List ℕ) (i : ℕ)
    → all_digits ds ≡ true
    → i < length ds
    → (b'0' ≤ get_or ds i 0) × (get_or ds i 0 ≤ b'9')
unfolding all_digits
get_or-all_digits [] i h lt = absurd (omega arith)
get_or-all_digits (d ∷ ds) zero h lt = ground (arith, h)
get_or-all_digits (d ∷ ds) (suc i) h lt = get_or-all_digits ds i (ground (arith, h)) (omega arith)

put_chunk-end :
    (content added : List ℕ)
    → put_chunk content (record { at_ = length content; bytes = added }) ≡ content ++ added
unfolding put_chunk
put_chunk-end content added =
    let kept = take-append content (replicate (length content) 0) in
    let none_ = drop_all (length content + length added) content (omega arith) in
    rw (kept, none_) (append-nil (content ++ added))

-- Adjacent chunks from the end of the file on are appended.
put_chunks-Covers :
    (content : List ℕ) (start : ℕ) (buf : List ℕ) (cs : List Chunk)
    → length content ≡ start
    → Covers start buf cs
    → put_chunks content cs ≡ content ++ buf
unfolding put_chunks
put_chunks-Covers content start buf [] e c = rw c (sym (append-nil content))
put_chunks-Covers content start buf (k ∷ cs) e (rest, at_end, whole, c) =
    let here : put_chunk content k ≡ content ++ k.bytes =
      ap (λ x. put_chunk content (record { at_ = x; bytes = k.bytes })) (at_end ∙ sym e)
      ∙ put_chunk-end content k.bytes in
    ap (λ x. put_chunks x cs) here
    ∙ put_chunks-Covers (content ++ k.bytes) (start + length k.bytes) rest cs
        (length-append content k.bytes ∙ ap (λ x. x + length k.bytes) e) c
    ∙ append_assoc content k.bytes rest
    ∙ ap (λ x. content ++ x) (sym whole)

get_or-append_left :
    (xs ys : List ℕ) (i : ℕ) → i < length xs → get_or (xs ++ ys) i 0 ≡ get_or xs i 0
get_or-append_left [] ys i lt = absurd (omega arith)
get_or-append_left (x ∷ xs) ys zero lt = refl
get_or-append_left (x ∷ xs) ys (suc i) lt = get_or-append_left xs ys i (omega arith)

strip_end-stops :
    (buf : List ℕ) (n : ℕ) → ((i : ℕ) → i < n → b'0' ≤ get_or buf i 0) → strip_end buf n ≡ n
unfolding strip_end
strip_end-stops buf zero h = refl
strip_end-stops buf (suc n) h = let digit = h n (omega arith) in ground arith

strip_end-digits :
    (ds : List ℕ)
    → all_digits ds ≡ true
    → strip_end (ds ++ b'\n' ∷ []) (suc (length ds)) ≡ length ds
unfolding strip_end
strip_end-digits ds h =
    let end_ = get_or-append ds [] b'\n' 0 in
    let stops = strip_end-stops (ds ++ b'\n' ∷ []) (length ds) (λ i lt.
      let d = get_or-all_digits ds i h lt in
      omega (arith, d.0, get_or-append_left ds (b'\n' ∷ []) i lt)) in
    rw end_ stops

digits-some : (pid : ℕ) → 0 < length (digits max_int_len pid [])
unfolding digits
digits-some pid =
    let rest = length-digits 10 (pid / 10) ((b'0' + pid % 10) ∷ []) in ground (arith, rest)

small : (n : ℕ) → n ≤ int_max → leb n int_max ≡ true
small n le = ground arith

-- A number that is printed is read again.
read_pid-print_pid : (pid : ℕ) → pid ≤ int_max → read_pid (print_pid pid) ≡ some pid
unfolding read_pid print_pid all_digits decimal
read_pid-print_pid pid le =
    let ds = digits max_int_len pid [] in
    let all_ : all_digits ds ≡ true = digits-all_digits max_int_len pid [] refl in
    let value : decimal 0 ds ≡ pid = digits-decimal max_int_len pid [] (omega arith) in
    let end_ : length (ds ++ b'\n' ∷ []) ≡ suc (length ds) =
      length-append ds (b'\n' ∷ []) ∙ omega arith in
    let kept = ap (strip_end (ds ++ b'\n' ∷ [])) end_ ∙ strip_end-digits ds all_ in
    let parsed : atoi (ds ++ b'\n' ∷ []) (length ds) ≡ pos pid =
      atoi-decimal (ds ++ b'\n' ∷ []) (length ds)
      ∙ rw
          (
            take-append ds (b'\n' ∷ []),
            all_,
            value,
            lt→ltb 0 (length ds) (digits-some pid),
            small pid le,
          )
          refl in
    ap not_negative (ap (atoi (ds ++ b'\n' ∷ [])) kept ∙ parsed)

print_pid-length : (pid : ℕ) → (0 < length (print_pid pid)) × (length (print_pid pid) ≤ 12)
unfolding print_pid
print_pid-length pid =
    let (_, le) = length-digits max_int_len pid [] in
    let sum = length-append (digits max_int_len pid []) (b'\n' ∷ []) in
    (omega (arith, sum), omega (arith, sum, le))

write_pid-written :
    (calls : List Outcome) (pid : ℕ)
    → Progress calls
    → 12 ≤ moves calls
    → write_pid calls pid [] ≡ some (record { is_ok = true; content = some (print_pid pid) })
unfolding write_pid
write_pid-written calls pid p enough =
    let (some_, le) = print_pid-length pid in
    let (w, q, (rc, _, covers)) =
      file_write-WholeWritten calls (print_pid pid) 0 0 0 p (omega arith) (omega arith) in
    let fits : leb (max_int_len + 2) (length (print_pid pid)) ≡ false = ground arith in
    rw (fits, q, rc, put_chunks-Covers [] 0 (print_pid pid) w.chunks refl covers) refl

take_whole : (n : ℕ) (xs : List ℕ) → length xs ≤ n → take n xs ≡ xs
take_whole zero [] le = refl
take_whole zero (x ∷ xs) le = absurd (omega arith)
take_whole (suc n) [] le = refl
take_whole (suc n) (x ∷ xs) le = ap (λ r. x ∷ r) (take_whole n xs (omega arith))

truncated : (old : Option (List ℕ)) → opened_content true old ≡ []
unfolding opened_content
truncated none = refl
truncated (some old) = refl

-- A process that writes its number, at most INT_MAX, into the pid file leaves a file by which a later
-- process sends its signal to that number: `Signal_process` does what `Os_signal_process` does for
-- it. The file can be opened, whatever it held before, no pwrite() fails other than by an interrupt,
-- and there are enough of them; a pread() of the file gives its first 13 bytes.
pub signal_process-create_pidfile :
    (s : Settings) (calls : List Outcome) (old : Option (List ℕ))
    → s.process_type ≤ process_master
    → s.test_config ≡ false
    → s.pid ≤ int_max
    → Progress calls
    → 12 ≤ moves calls
    → (c : List ℕ) × (create_pidfile s true calls old
        ≡ some (record { is_ok = true; content = some c }))
      × ((kill : ℕ → ℕ → Bool) (sig : List ℕ)
          → signal_process kill sig (some (take 13 c)) ≡ os_signal_process kill sig s.pid signals)
unfolding create_pidfile opened_content signal_process
signal_process-create_pidfile s calls old master run fits p enough =
    let c = print_pid s.pid in
    let (some_, le) = print_pid-length s.pid in
    let all_ : take 13 c ≡ c = take_whole 13 c (omega arith) in
    let is_master : ltb process_master s.process_type ≡ false = ground arith in
    let empty_ : length c == 0 ≡ false = ground arith in
    (
      c,
      rw (is_master, run, truncated old) (write_pid-written calls s.pid p enough),
      λ kill sig. rw all_ (rw empty_ (ap (kill_pid kill sig) (read_pid-print_pid s.pid fits))),
    )
