-- ===== src/Server/Tail/Laws.antt =====
-- What a client of the log tailer, and what one that is attached to a unit, receives.
use itzo.Base.{
  ℕ, ◌+◌, ◌≤◌, ◌≡◌, refl, sym, ap, subst, ◌∙◌, Bool, true, false, some, List, [], ◌∷◌, ◌++◌, Str,
  length, append_assoc, append-nil, length-append, pos, Bool-cases, inl, inr,
}
use itzo.LogBuf.{LogEntry, read_since}
use itzo.LogBuf.History.{Holds}
use itzo.LogBuf.Read.{poll-exact}
use itzo.Server.Tail.{
  before_all, tail_tick, tail_stopped, stdout_chan, stderr_chan, Message, Tick, Round, closed, tick,
  waiting, not_running, Sent, format_all, run_log_tailer, tail_entries, write_ws_error,
}

-- The rounds of a loop over a history that grows: `news` are the lines that are written in them.
-- Between two reads no more lines are written than the buffer keeps, every message can be written
-- and the connection stays open.
pub data Watched : List LogEntry → List Round → List LogEntry → Type 0 where
  idle : {seen : List LogEntry} → Watched seen [] []
  next :
      {seen : List LogEntry} {t : Tick} {rounds : List Round} {news : List LogEntry}
      (first second : List LogEntry)
      → t.writable ≡ true
      → Holds t.before (seen ++ first)
      → length first ≤ t.before.capacity
      → Holds t.after (seen ++ (first ++ second))
      → length (first ++ second) ≤ t.after.capacity
      → Watched (seen ++ (first ++ second)) rounds news
      → Watched seen (tick t ∷ rounds) ((first ++ second) ++ news)

-- The texts of the messages on the standard output, in one.
abbrev pub received : List Message → Str
received [] = []
received (m ∷ ms) = elim m.channel [
  | stdout_chan ↦ m.text ++ received ms
  | stderr_chan ↦ received ms
]

abbrev pub lines : List LogEntry → Str
lines [] = []
lines (e ∷ es) = e.line ++ lines es

lines-append : (es fs : List LogEntry) → lines (es ++ fs) ≡ lines es ++ lines fs
lines-append [] fs = refl
lines-append (e ∷ es) fs =
    ap (λ t. e.line ++ t) (lines-append es fs) ∙ sym (append_assoc e.line (lines es) (lines fs))

pub format_all-eq-lines : (es : List LogEntry) → format_all false es ≡ some (lines es)
unfolding format_all
format_all-eq-lines [] = refl
format_all-eq-lines (e ∷ es) = rw (format_all-eq-lines es)

-- How the tailer stands after rounds with the lines `news`: it waits, and all of them were received;
-- or it returned in a round in which the unit does not run and the buffer as it was then held
-- nothing that was not received before.
pub data Ended (seen news : List LogEntry) (r : Sent) : Type 0 where
  all : r.0 ≡ waiting → received r.1 ≡ lines news → Ended seen news r
  stopped :
      (sent missed : List LogEntry) (stop : Tick) (later : List Round)
      → r.0 ≡ not_running
      → news ≡ sent ++ missed
      → received r.1 ≡ lines sent
      → stop.running ≡ false
      → Holds stop.before (seen ++ sent)
      → Watched (seen ++ sent) (tick stop ∷ later) missed
      → Ended seen news r

prepend : List LogEntry → Sent → Sent
prepend [] s = s
prepend (e ∷ es) s = before_all (record { channel = stdout_chan; text = lines (e ∷ es) }) s

tail_entries-prepend :
    (chunk : List LogEntry) (offset : ℕ) (k : ℕ → Sent)
    → tail_entries false true (some (chunk, offset)) k ≡ prepend chunk (k offset)
unfolding tail_entries prepend
tail_entries-prepend [] offset k = refl
tail_entries-prepend (e ∷ es) offset k = rw (format_all-eq-lines (e ∷ es))

prepend-received :
    (chunk : List LogEntry) (s : Sent)
    → ((prepend chunk s).0 ≡ s.0) × (received (prepend chunk s).1 ≡ lines chunk ++ received s.1)
unfolding prepend
prepend-received [] s = (refl, refl)
prepend-received (e ∷ es) s = (refl, refl)

Ended-prepend :
    (seen chunk news : List LogEntry) (s : Sent)
    → Ended (seen ++ chunk) news s
    → Ended seen (chunk ++ news) (prepend chunk s)
Ended-prepend seen chunk news s (all o p) =
    let r = prepend-received chunk s in
    all (r.0 ∙ o) (r.1 ∙ ap (λ t. lines chunk ++ t) p ∙ sym (lines-append chunk news))
Ended-prepend seen chunk news s (stopped sent missed stop later o e p n h w) =
    let r = prepend-received chunk s in
    stopped (chunk ++ sent) missed stop later (r.0 ∙ o)
      (ap (λ l. chunk ++ l) e ∙ sym (append_assoc chunk sent missed))
      (r.1 ∙ ap (λ t. lines chunk ++ t) p ∙ sym (lines-append chunk sent)) n
      (subst (Holds stop.before) (append_assoc seen chunk sent) h)
      (subst (λ l. Watched l (tick stop ∷ later) missed) (append_assoc seen chunk sent) w)

module _ (unit_name : Str) (seen news : List LogEntry) (t : Tick) (rounds : List Round)
    (k : ℕ → Sent) where
  tick_entries :
      (chunk : List LogEntry)
      → t.writable ≡ true
      → Holds t.after (seen ++ chunk)
      → length chunk ≤ t.after.capacity
      → tail_entries false t.writable (read_since t.after (pos (length seen))) k
        ≡ prepend chunk (k (length (seen ++ chunk)))
  tick_entries chunk w h fits =
      rw (w, poll-exact seen chunk h fits, length-append seen chunk)
        (tail_entries-prepend chunk (length seen + length chunk) k)

  received-error : (writable : Bool) → received (write_ws_error writable unit_name) ≡ []
  unfolding write_ws_error
  received-error true = refl
  received-error false = refl

  tail_stopped-Ended :
      (first second : List LogEntry) (offset : ℕ) (go_on : Sent)
      → t.running ≡ false
      → Holds t.before (seen ++ first)
      → Watched seen (tick t ∷ rounds) ((first ++ second) ++ news)
      → Ended seen ((first ++ second) ++ news) go_on
      → Ended seen
          ((first ++ second) ++ news)
          (tail_stopped t.writable unit_name (some (first, offset)) go_on)
  unfolding tail_stopped write_ws_error
  tail_stopped-Ended [] second offset go_on n h w e =
      stopped [] (second ++ news) t rounds refl refl (received-error t.writable) n h
        (subst (λ l. Watched l (tick t ∷ rounds) (second ++ news)) (sym (append-nil seen)) w)
  tail_stopped-Ended (f ∷ first) second offset go_on n h w e = e

  tail_tick-Ended :
      (first second : List LogEntry)
      → t.writable ≡ true
      → Holds t.before (seen ++ first)
      → length first ≤ t.before.capacity
      → Holds t.after (seen ++ (first ++ second))
      → length (first ++ second) ≤ t.after.capacity
      → Watched (seen ++ (first ++ second)) rounds news
      → Ended (seen ++ (first ++ second)) news (k (length (seen ++ (first ++ second))))
      → Ended seen ((first ++ second) ++ news) (tail_tick unit_name false t (length seen) k)
  unfolding tail_tick
  tail_tick-Ended first second w hb lb ha la rest ended =
      let go_on =
        subst (Ended seen ((first ++ second) ++ news))
          (sym (tick_entries (first ++ second) w ha la))
          (Ended-prepend seen (first ++ second) news _ ended) in
      elim (Bool-cases t.running) [
        | inl r ↦ rw r go_on
        | inr r ↦
            rw (r, poll-exact seen first hb lb)
              (tail_stopped-Ended first second (length seen + length first) _ r hb
                (next first second w hb lb ha la rest) go_on)
      ]

-- As long as every message can be written, the connection stays open, and between two reads no more
-- lines are written than the buffer keeps: a client of RunLogTailer without metadata, who starts
-- behind the lines `seen`, receives every line that is written from then on, once and in order. If
-- it returns because the unit does not run, then nothing was left in the buffer that had not been
-- sent.
pub run_log_tailer-Ended :
    (unit_name : Str) {seen news : List LogEntry} {rounds : List Round}
    → Watched seen rounds news
    → Ended seen news (run_log_tailer unit_name false rounds (length seen))
unfolding run_log_tailer
run_log_tailer-Ended unit_name idle = all refl refl
run_log_tailer-Ended unit_name (next first second w hb lb ha la rest) =
    tail_tick-Ended unit_name _ _ _ _ (run_log_tailer unit_name false _) first second w hb lb ha la
      rest (run_log_tailer-Ended unit_name rest)

abbrev pub AllRunning : List Round → Type 0
AllRunning [] = Unit
AllRunning (closed ∷ rounds) = AllRunning rounds
AllRunning (tick t ∷ rounds) = (t.running ≡ true) × AllRunning rounds
