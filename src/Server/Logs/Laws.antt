-- ===== src/Server/Logs/Laws.antt =====
-- The text that a request for logs is answered with.
use itzo.Base.{
  ℕ, suc, ◌-◌, ◌≤◌, ◌<◌, ◌≡◌, refl, ap, ◌∙◌, Bool, false, ◌&&◌, some, List, [], ◌∷◌, ◌++◌, ltb,
  length, drop, take, Str, pos, arith, inl, inr, Bool-cases, zero,
}
use itzo.LogBuf.{LogEntry, LogBuffer}
use itzo.LogBuf.History.{Holds}
use itzo.LogBuf.Read.{read-eq-last, last, wanted}
use itzo.Server.Tail.{format_all}
use itzo.Server.Tail.Laws.{lines, format_all-eq-lines}
use itzo.Server.Logs.{last_bytes, limited, log_text}

-- The end of a text: all of it if `n` is 0, and else of at most `n` bytes, and no shorter than that
-- if anything is cut off.
pub record IsEnd (n : ℕ) (text kept : Str) : Type 0 where
  pub cut : Str
  pub whole : cut ++ kept ≡ text
  pub unlimited : n ≡ 0 → kept ≡ text
  pub bounded : 0 < n → length kept ≤ n
  pub full : 0 < length cut → length kept ≡ n

take-drop : (n : ℕ) (s : Str) → take n s ++ drop n s ≡ s
take-drop zero s = refl
take-drop (suc n) [] = refl
take-drop (suc n) (c ∷ s) = ap (λ t. c ∷ t) (take-drop n s)

length-drop : (n : ℕ) (s : Str) → length (drop n s) ≡ length s - n
length-drop zero s = omega arith
length-drop (suc n) [] = omega arith
length-drop (suc n) (c ∷ s) = omega (arith, length-drop n s)

last_bytes-IsEnd : (n : ℕ) (text : Str) → IsEnd n text (last_bytes (pos n) text)
unfolding last_bytes
last_bytes-IsEnd n text = elim (Bool-cases (ltb 0 n && ltb n (length text))) [
  | inl h ↦ rw h (record {
    cut = take (length text - n) text;
    whole = take-drop (length text - n) text;
    unlimited = λ p. absurd (ground (arith, h, p));
    bounded = λ p. ground (arith, length-drop (length text - n) text);
    full = λ p. ground (arith, length-drop (length text - n) text);
  })
  | inr h ↦ rw h (record {
    cut = [];
    whole = refl;
    unlimited = λ p. refl;
    bounded = λ p. ground arith;
    full = λ p. absurd (omega arith);
  })
]

-- The answer to a request for the last `nn` lines and at most `n` bytes of a log without metadata
-- is made and is the end of those lines of the history: it has at most `n` bytes, and it has so
-- many if anything is left out. A limit of 0 bytes is none, and of 0 lines, or more than there are,
-- stands for all that the buffer keeps.
pub log_text-IsEnd :
    {lb : LogBuffer} {history : List LogEntry} (nn n : ℕ) (unit_name : Str) (follow : Bool)
    → Holds lb history
    → (kept : Str) × (log_text lb (record {
      unit_name = unit_name;
      follow = follow;
      with_metadata = false;
      line_num = pos nn;
      bytes_num = pos n;
    })
        ≡ some kept)
      × IsEnd n (lines (last (wanted lb.capacity (length history) nn) history)) kept
unfolding log_text
log_text-IsEnd {lb} {history} nn n unit_name follow h =
    let entries = last (wanted lb.capacity (length history) nn) history in
    (
      last_bytes (pos n) (lines entries),
      ap (λ es. limited (pos n) (format_all false es)) (read-eq-last h nn)
          ∙ ap (limited (pos n)) (format_all-eq-lines entries),
      last_bytes-IsEnd n (lines entries),
    )
