-- ===== src/LogBuf/Read.antt =====
-- `Read` and `ReadSince` return parts of the history.
use itzo.Base.{
  ℕ, zero, suc, ◌+◌, ◌-◌, ◌%◌, ◌≤◌, ◌≡◌, refl, sym, ap, ap₂, ◌∙◌, ◌||◌, some, List, [], ◌∷◌, ◌++◌,
  append-nil, append_assoc, arith, length, get_or, drop, drop-eq-cons, drop-eq-nil, set-replicate,
  replicate, ltb, min, max, ◌==◌, nat_eq, if◌then◌else◌, pos, drop-append_length, length-append,
}
use itzo.LogBuf.{LogEntry, LogBuffer, zero_entry, scan, fill, read, read_since}
use itzo.LogBuf.History.{Holds}

-- The last `n` members of a list.
abbrev pub last : ℕ → List LogEntry → List LogEntry
last n xs = drop (length xs - n) xs

-- How many entries a reader who asks for `nn` wants of a history of `n` entries.
abbrev pub wanted : ℕ → ℕ → ℕ → ℕ
wanted capacity n nn = if nn == 0 || ltb capacity nn || ltb n nn then min capacity n else nn

starts_at_seen : (n k c : ℕ) → k ≤ c → max n (n + k - c) ≡ n
starts_at_seen n k c h = omega arith

-- A scan of one more round ends with one more entry.
scan-snoc :
    (lb : LogBuffer) (k i : ℕ)
    → scan lb (suc k) i ≡ scan lb k i ++ get_or lb.buf ((i + k) % lb.capacity) zero_entry ∷ []
unfolding scan
scan-snoc lb zero i = ap (λ (n : ℕ). get_or lb.buf (n % lb.capacity) zero_entry ∷ []) (omega arith)
scan-snoc lb (suc k) i =
    ap (λ l. get_or lb.buf (i % lb.capacity) zero_entry ∷ l)
      (scan-snoc lb k (i + 1)
        ∙ ap (λ (n : ℕ). scan lb k (i + 1) ++ get_or lb.buf (n % lb.capacity) zero_entry ∷ [])
            (omega arith))

-- `Read` fills its slice from the back with what a scan forwards finds.
fill-eq-scan :
    (lb : LogBuffer) (k i s : ℕ) (entries : List LogEntry)
    → s + k + i ≡ lb.offset + 1
    → fill lb k i (replicate k zero_entry ++ entries) ≡ scan lb k s ++ entries
unfolding fill scan
fill-eq-scan lb zero i s entries p = refl
fill-eq-scan lb (suc k) i s entries p =
    ap (fill lb k (i + 1)) (set-replicate k entries zero_entry (at (lb.offset - i)))
    ∙ fill-eq-scan lb k (i + 1) s (at (lb.offset - i) ∷ entries) (omega arith)
    ∙ ap (λ (n : ℕ). scan lb k s ++ at n ∷ entries) place
    ∙ sym (append_assoc (scan lb k s) (at (s + k) ∷ []) entries)
    ∙ ap (λ l. l ++ entries) (sym (scan-snoc lb k s))
  where
    at : ℕ → LogEntry
    at n = get_or lb.buf (n % lb.capacity) zero_entry

    place : lb.offset - i ≡ s + k
    place = omega arith

module _ {lb : LogBuffer} {history : List LogEntry} (h : Holds lb history) where
  scan-eq-drop :
      (k i : ℕ) → i + k ≡ lb.offset → lb.offset ≤ i + lb.capacity → scan lb k i ≡ drop i history
  unfolding scan
  scan-eq-drop zero i p q = sym (drop-eq-nil history i (omega (arith, h.counted)))
  scan-eq-drop (suc k) i p q =
      ap₂ ◌∷◌ (h.at_index i (omega arith) q) (
        scan-eq-drop k (i + 1) (omega arith) (omega arith)
        ∙ ap (λ (n : ℕ). drop n history) {y = suc i} (omega arith))
      ∙ sym (drop-eq-cons history i zero_entry (omega (arith, h.counted)))

  -- On a buffer that stands for a history of entries, `ReadSince` never panics from a number that is
  -- not negative. It returns all the entries from that number on, or all that the buffer still keeps
  -- if some of those are gone, and the number of entries ever written, which is where the next poll
  -- continues.
  read_since-eq-drop :
      (i : ℕ)
      → read_since lb (pos i)
        ≡ some (drop (max i (length history - lb.capacity)) history, length history)
  unfolding read_since
  read_since-eq-drop i = ground (
    arith,
    h.counted,
    scan-eq-drop lb.capacity (lb.offset - lb.capacity),
    scan-eq-drop (lb.offset - i) i,
    drop-eq-nil history i,
  )

  fill-eq-drop :
      (k : ℕ)
      → k ≤ lb.offset
      → k ≤ lb.capacity
      → fill lb k 1 (replicate k zero_entry) ≡ drop (lb.offset - k) history
  fill-eq-drop k p q =
      ap (fill lb k 1) (sym (append-nil (replicate k zero_entry)))
      ∙ fill-eq-scan lb k 1 (lb.offset - k) [] (omega arith)
      ∙ append-nil (scan lb k (lb.offset - k))
      ∙ scan-eq-drop k (lb.offset - k) (omega arith) (omega arith)

  -- On a buffer that stands for a history, `Read` returns the last entries of the history in the
  -- order of their writes: as many as it is asked for, or, asked for 0 or for more than there are, as
  -- many as the buffer keeps.
  pub read-eq-last :
      (nn : ℕ) → read lb (pos nn) ≡ last (wanted lb.capacity (length history) nn) history
  unfolding read
  read-eq-last nn =
      ground (arith, h.counted, fill-eq-drop nn, fill-eq-drop lb.capacity, fill-eq-drop lb.offset)

-- A reader who polls from the offset that the last poll returned gets exactly the lines written
-- since, in their order, unless more lines than the capacity were written.
pub poll-exact :
    {lb : LogBuffer} (seen news : List LogEntry)
    → Holds lb (seen ++ news)
    → length news ≤ lb.capacity
    → read_since lb (pos (length seen)) ≡ some (news, length seen + length news)
poll-exact {lb} seen news h fits =
    read_since-eq-drop h (length seen)
    ∙ rw (length-append seen news) (
        rw (starts_at_seen (length seen) (length news) lb.capacity fits)
          (rw (drop-append_length seen news)))
