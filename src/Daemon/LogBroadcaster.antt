-- ===== src/Daemon/LogBroadcaster.antt =====
-- backend/internal/daemon/log_broadcaster.go: one log stream for each container, its subscribers, and
-- the sections under the two locks, each of which is one step. A stream is a place of a heap, since
-- the map and the goroutines share it; a channel is a number with the lines in its buffer.
pub mod Lines
pub mod Retry
pub mod Lost
pub mod Race
use calf.Common.{
  ℕ, zero, suc, ◌+◌, ◌-◌, ◌*◌, Bool, true, false, not, ◌&&◌, ◌||◌, Option, none, some, List, [],
  ◌∷◌, ◌++◌, ltb, leb, ◌==◌, if◌then◌else◌, length, drop, keep,
}
use calf.Strings.{Text, text_eq}

-- `LogTailLineCount`, and the buffer of a channel.
abbrev pub log_tail_line_count : ℕ
log_tail_line_count = 500

abbrev pub channel_size : ℕ
channel_size = 256

-- `started` is `cancel != nil`; `cancelled` is that of the context of its goroutine.
pub record SharedLogStream : Type 0 where
  pub container_id : Text
  pub subscribers : List ℕ
  pub started : Bool
  pub cancelled : Bool
  pub stopping : Bool
  pub history : List Text

abbrev pub new_stream : Text → SharedLogStream
new_stream container_id = record {
  container_id = container_id;
  subscribers = [];
  started = false;
  cancelled = false;
  stopping = false;
  history = [];
}

pub record LogBroadcaster : Type 0 where
  pub streams : Text → Option ℕ
  pub heap : ℕ → SharedLogStream
  pub next : ℕ

abbrev pub put_stream : (ℕ → SharedLogStream) → ℕ → SharedLogStream → ℕ → SharedLogStream
put_stream heap p s q = if q == p then s else heap q

abbrev pub put_key : (Text → Option ℕ) → Text → Option ℕ → Text → Option ℕ
put_key streams k p id = if text_eq id k then p else streams id

abbrev pub allocate : LogBroadcaster → Text → LogBroadcaster × ℕ
allocate b id = (
  record {
    streams = put_key b.streams id (some b.next);
    heap = put_stream b.heap b.next (new_stream id);
    next = b.next + 1;
  },
  b.next,
)

abbrev pub find_or_allocate : LogBroadcaster → Text → Option ℕ → LogBroadcaster × ℕ
find_or_allocate b id none = allocate b id
find_or_allocate b id (some p) = if (b.heap p).stopping then allocate b id else (b, p)

-- `subscribe`, under the broadcaster's lock: the stream of the container.
unfoldable pub subscribe_find : LogBroadcaster → Text → LogBroadcaster × ℕ
subscribe_find b id = find_or_allocate b id (b.streams id)

abbrev pub remove_channel : ℕ → List ℕ → List ℕ
remove_channel ch chs = keep (λ c. not (c == ch)) chs

-- `subscribe`, under the stream's lock: the channel joins, and starts the goroutine where none runs.
unfoldable pub join_stream : SharedLogStream → ℕ → SharedLogStream
join_stream s ch =
    let should_start = not s.started && not s.stopping in
    record s {
      subscribers = ch ∷ remove_channel ch s.subscribers;
      started = s.started || should_start;
      cancelled = if should_start then false else s.cancelled;
    }

unfoldable pub subscribe_join : LogBroadcaster → ℕ → ℕ → LogBroadcaster
unfolding join_stream
subscribe_join b p ch = record b { heap = put_stream b.heap p (join_stream (b.heap p) ch) }

abbrev pub is_nil : List ℕ → Bool
is_nil [] = true
is_nil (x ∷ xs) = false

-- `release`, under the stream's lock, and the call of `cancel` behind it, which only the goroutine
-- of the stream sees.
unfoldable pub leave_stream : SharedLogStream → ℕ → SharedLogStream
leave_stream s ch =
    let rest = remove_channel ch s.subscribers in
    if is_nil rest
    then record s { subscribers = rest; stopping = true; cancelled = s.cancelled || s.started }
    else record s { subscribers = rest }

-- `release`: under the broadcaster's lock the stream of the container, which is not there where it is
-- none; then, under the stream's lock, the departure.
unfoldable pub release_find : LogBroadcaster → Text → Option ℕ
release_find b id = b.streams id

unfoldable pub release_leave : LogBroadcaster → ℕ → ℕ → LogBroadcaster
unfolding leave_stream
release_leave b p ch = record b { heap = put_stream b.heap p (leave_stream (b.heap p) ch) }

-- `cleanupStream`: the stream's part, then the map's.
unfoldable pub cleanup_stream : LogBroadcaster → ℕ → LogBroadcaster
cleanup_stream b p = record b {
  heap = put_stream b.heap p (record (b.heap p) { started = false; stopping = false });
}

abbrev pub drop_key : (Text → Option ℕ) → Text → ℕ → Option ℕ → Text → Option ℕ
drop_key streams k p none = streams
drop_key streams k p (some q) = if q == p then put_key streams k none else streams

unfoldable pub cleanup_map : LogBroadcaster → ℕ → LogBroadcaster
cleanup_map b p =
    let k = (b.heap p).container_id in record b { streams = drop_key b.streams k p (b.streams k) }

-- `hasSubscribers`
unfoldable pub has_subscribers : SharedLogStream → Bool
has_subscribers s = not (is_nil s.subscribers)

-- The history of `publish`: the last lines.
unfoldable pub keep_tail : List Text → List Text
keep_tail lines =
    if ltb log_tail_line_count (length lines)
    then drop (length lines - log_tail_line_count) lines
    else lines

-- `trySendLogLine`: a full buffer takes no line.
unfoldable pub try_send_log_line : List Text → Text → List Text
try_send_log_line buffer line =
    if ltb (length buffer) channel_size then buffer ++ (line ∷ []) else buffer

abbrev pub send_all : List ℕ → Text → (ℕ → List Text) → ℕ → List Text
send_all [] line buffers = buffers
send_all (ch ∷ chs) line buffers =
    send_all chs line (λ c. if c == ch then try_send_log_line (buffers ch) line else buffers c)

unfoldable pub publish :
    SharedLogStream → (ℕ → List Text) → Text → SharedLogStream × (ℕ → List Text)
unfolding keep_tail try_send_log_line
publish s buffers line = (
  record s { history = keep_tail (s.history ++ (line ∷ [])) },
  send_all s.subscribers line buffers,
)

-- The delays, in milliseconds.
abbrev pub log_stream_retry_base : ℕ
log_stream_retry_base = 500

abbrev pub log_stream_retry_max : ℕ
log_stream_retry_max = 5000

unfoldable pub next_log_stream_retry_delay : ℕ → ℕ
next_log_stream_retry_delay current =
    if leb log_stream_retry_max current
    then log_stream_retry_max
    else if ltb log_stream_retry_max (current * 2)
    then log_stream_retry_max
    else current * 2

pub data Phase : Type 0 where
  from_history following : Phase

-- What one round of `runStream` meets: whether the context is cancelled before it, behind the call or
-- in the wait, whether there are subscribers, and whether the call fails.
pub record Round : Type 0 where
  pub cancelled_before : Bool
  pub subscribed : Bool
  pub fails : Bool
  pub cancelled_behind : Bool
  pub cancelled_waiting : Bool

-- The calls of `runStream`, each with the delay that follows it; 0 where the loop ends with the call.
unfoldable pub run_rounds : List Round → Bool → ℕ → List (Phase × ℕ)
run_rounds [] sent_history delay = []
run_rounds (r ∷ rs) sent_history delay =
    let phase = if sent_history then following else from_history in
    let wait = if r.fails then delay else log_stream_retry_base in
    let rest =
      run_rounds rs true
        (if r.fails then next_log_stream_retry_delay delay else log_stream_retry_base) in
    if r.cancelled_before
    then []
    else if not r.subscribed
    then []
    else if r.cancelled_behind
    then (phase, 0) ∷ []
    else if r.cancelled_waiting
    then (phase, wait) ∷ []
    else (phase, wait) ∷ rest

unfoldable pub run_stream : List Round → List (Phase × ℕ)
unfolding run_rounds next_log_stream_retry_delay
run_stream rounds = run_rounds rounds false log_stream_retry_base
