-- ===== src/Server/Tail.antt =====
-- `RunLogTailer` and `runAttach` of pkg/server/server.go: a websocket that gets the lines of a unit
-- as they are written. A list of rounds says what each `select` of the loop meets.
pub mod Laws
use itzo.Base.{
  ℕ, Bool, true, false, Option, none, some, List, [], ◌∷◌, ◌++◌, if◌then◌else◌, Str, lit, pos,
}
use itzo.LogBuf.{LogSource, LogEntry, LogBuffer, format, read_since}

-- The channels of package wsstream that are written to.
pub data Channel : Type 0 where
  stdout_chan stderr_chan : Channel

pub record Message : Type 0 where
  pub channel : Channel
  pub text : Str

-- A tick of the timer: whether the unit runs, the buffer as the first and as the second `ReadSince`
-- find it, with what is written in between, and whether a message can be written.
pub record Tick : Type 0 where
  pub running : Bool
  pub before : LogBuffer
  pub after : LogBuffer
  pub writable : Bool

pub data Round : Type 0 where
  closed : Round
  tick : Tick → Round

-- How a loop stands after its rounds: it waits for the next one, or it returned because the
-- connection was closed, a message could not be written or the unit does not run, or it panicked.
pub data Outcome : Type 0 where
  waiting was_closed write_failed not_running panicked : Outcome

abbrev pub Sent : Type 0
Sent = Outcome × List Message

abbrev pub before_all : Message → Sent → Sent
before_all m s = (s.0, m ∷ s.1)

abbrev pub not_running_error : Str → Message
not_running_error unit_name = record {
  channel = stderr_chan;
  text = lit "Unit " ++ unit_name ++ lit " is not running\n";
}

-- `writeWSError` with the text for a unit that does not run; if it cannot be written it is logged.
unfoldable pub write_ws_error : Bool → Str → List Message
unfolding lit
write_ws_error true unit_name = not_running_error unit_name ∷ []
write_ws_error false unit_name = []

unfoldable pub format_all : Bool → List LogEntry → Option Str
unfolding format
format_all with_metadata [] = some []
format_all with_metadata (e ∷ es) = elim (format e with_metadata) [
  | none ↦ none
  | some s ↦ elim (format_all with_metadata es) [ none ↦ none | some t ↦ some (s ++ t) ]
]

-- All entries of a round in one message, and then the next rounds.
send_entries : Bool → Option Str → Sent → Sent
send_entries writable none next = (panicked, [])
send_entries true (some text) next = before_all (record { channel = stdout_chan; text = text }) next
send_entries false (some text) next = (write_failed, [])

-- The second `ReadSince` of a round; `next` are the rounds that follow, from the new offset.
tail_entries : Bool → Bool → Option (List LogEntry × ℕ) → (ℕ → Sent) → Sent
unfolding send_entries
tail_entries with_metadata writable none next = (panicked, [])
tail_entries with_metadata writable (some ([], offset)) next = next offset
tail_entries with_metadata writable (some (e ∷ es, offset)) next =
    send_entries writable (format_all with_metadata (e ∷ es)) (next offset)

-- The first one, which is made when the unit does not run.
tail_stopped : Bool → Str → Option (List LogEntry × ℕ) → Sent → Sent
unfolding write_ws_error
tail_stopped writable unit_name none go_on = (panicked, [])
tail_stopped writable unit_name (some ([], offset)) go_on =
    (not_running, write_ws_error writable unit_name)
tail_stopped writable unit_name (some (e ∷ es, offset)) go_on = go_on

tail_tick : Str → Bool → Tick → ℕ → (ℕ → Sent) → Sent
unfolding tail_stopped tail_entries
tail_tick unit_name with_metadata t last_offset next =
    let go_on = tail_entries with_metadata t.writable (read_since t.after (pos last_offset)) next in
    if t.running
    then go_on
    else tail_stopped t.writable unit_name (read_since t.before (pos last_offset)) go_on

unfoldable pub run_log_tailer : Str → Bool → List Round → ℕ → Sent
unfolding tail_tick
run_log_tailer unit_name with_metadata [] last_offset = (waiting, [])
run_log_tailer unit_name with_metadata (closed ∷ rounds) last_offset = (was_closed, [])
run_log_tailer unit_name with_metadata (tick t ∷ rounds) last_offset =
    tail_tick unit_name with_metadata t last_offset (run_log_tailer unit_name with_metadata rounds)

-- `runAttach`: the entries of the helper are left out, and those of stderr go to their own channel.
unfoldable pub attach_messages : List LogEntry → List Message
attach_messages [] = []
attach_messages (e ∷ es) = elim e.source [
  | LogSource.helper ↦ attach_messages es
  | LogSource.stderr ↦ record { channel = stderr_chan; text = e.line } ∷ attach_messages es
  | LogSource.stdout ↦ record { channel = stdout_chan; text = e.line } ∷ attach_messages es
]

-- The first message that cannot be written ends the loop.
send_messages : Bool → List Message → Sent → Sent
send_messages writable [] next = next
send_messages true (m ∷ ms) next = before_all m (send_messages true ms next)
send_messages false (m ∷ ms) next = (write_failed, [])

attach_entries : Bool → Option (List LogEntry × ℕ) → (ℕ → Sent) → Sent
unfolding send_messages attach_messages
attach_entries writable none next = (panicked, [])
attach_entries writable (some (entries, offset)) next =
    send_messages writable (attach_messages entries) (next offset)

unfoldable pub attach_loop : Str → List Round → ℕ → Sent
unfolding attach_entries write_ws_error
attach_loop unit_name [] last_offset = (waiting, [])
attach_loop unit_name (closed ∷ rounds) last_offset = (was_closed, [])
attach_loop unit_name (tick t ∷ rounds) last_offset =
    let next = attach_loop unit_name rounds in
    if t.running
    then attach_entries t.writable (read_since t.after (pos last_offset)) next
    else (not_running, write_ws_error t.writable unit_name)
