-- ===== src/Daemon/LogBroadcaster/Race.antt =====
-- The race of `subscribe` with `release` in log_broadcaster.go.
use calf.Common.{
  ℕ, ◌<◌, ◌≡◌, ◌≢◌, refl, sym, ap, subst, ◌∙◌, true, false, ◌||◌, not, any, ||-left, Option, none,
  some, List, [], ◌∷◌, ◌==◌, All, if-rule, ==_iff,
}
use calf.Strings.{Text, text_eq}
use calf.Daemon.LogBroadcaster.{
  SharedLogStream, LogBroadcaster, put_stream, find_or_allocate, subscribe_find, has_subscribers,
  join_stream, subscribe_join, leave_stream, release_find, release_leave, cleanup_stream, drop_key,
  cleanup_map,
}
use calf.Daemon.LogBroadcaster.Lost.{
  System, Step, find, join, look_up, leave, stop, reset, clean, Steps, done, behind, IsLost,
}

-- A stream that is served and has one subscriber.
abbrev pub served : Text → ℕ → List Text → SharedLogStream
served id a history = record {
  container_id = id;
  subscribers = a ∷ [];
  started = true;
  cancelled = false;
  stopping = false;
  history = history;
}

-- What becomes of it: the last subscriber leaves, another joins, the goroutine ends.
abbrev left : Text → List Text → SharedLogStream
left id history = record {
  container_id = id;
  subscribers = [];
  started = true;
  cancelled = true;
  stopping = true;
  history = history;
}

abbrev joined : Text → ℕ → List Text → SharedLogStream
joined id c history = record (left id history) { subscribers = c ∷ [] }

abbrev pub stopped : Text → ℕ → List Text → SharedLogStream
stopped id c history = record (joined id c history) { started = false; stopping = false }

-- The container's entry is this stream, and no other entry is; no call of `subscribe` or `release` is
-- on its way to the stream, and its goroutine has not come to its end.
pub record IsAlone (id : Text) (a p : ℕ) (history : List Text) (s : System) : Type 0 where
  pub mapped : s.b.streams id ≡ some p
  pub only : (k : Text) → s.b.streams k ≡ some p → text_eq k id ≡ true
  pub stream : s.b.heap p ≡ served id a history
  pub allocated : p < s.b.next
  pub unclaimed : All (λ (j : ℕ × ℕ). j.1 ≢ p) s.joining
  pub unreleased : All (λ (j : ℕ × ℕ). j.1 ≢ p) s.leaving
  pub running : All (λ q. q ≢ p) s.ending

self : (n : ℕ) → (n == n) ≡ true
self n = (==_iff n n).1 refl

put_stream_same :
    (heap : ℕ → SharedLogStream) (p : ℕ) (stream : SharedLogStream)
    → put_stream heap p stream p ≡ stream
put_stream_same heap p stream = rw (self p) refl

-- The broadcaster with this stream at the place.
abbrev with_stream : LogBroadcaster → ℕ → SharedLogStream → LogBroadcaster
with_stream b p stream = record b { heap = put_stream b.heap p stream }

leave_stream-served :
    (id : Text) (a : ℕ) (history : List Text)
    → leave_stream (served id a history) a ≡ left id history
unfolding leave_stream
leave_stream-served id a history = rw (self a) refl

module _ (id : Text) (a c p : ℕ) (history : List Text) (s : System)
    (alone : IsAlone id a p history s) where
  found : subscribe_find s.b id ≡ (s.b, p)
  unfolding subscribe_find
  found =
      let running : (s.b.heap p).stopping ≡ false =
        ap (λ (x : SharedLogStream). x.stopping) alone.stream in
      ap (find_or_allocate s.b id) alone.mapped ∙ rw running refl

  released : release_leave s.b p a ≡ with_stream s.b p (left id history)
  unfolding release_leave
  released = ap (with_stream s.b p) (
      ap (λ (x : SharedLogStream). leave_stream x a) alone.stream
      ∙ leave_stream-served id a history)

  looked_up : release_find s.b id ≡ some p
  unfolding release_find
  looked_up = alone.mapped

  abbrev b_left : LogBroadcaster
  b_left = with_stream s.b p (left id history)

  rejoined : subscribe_join b_left p c ≡ with_stream b_left p (joined id c history)
  unfolding subscribe_join join_stream
  rejoined =
      ap (λ (x : SharedLogStream). with_stream b_left p (join_stream x c))
        (put_stream_same s.b.heap p (left id history))

  abbrev b_joined : LogBroadcaster
  b_joined = with_stream b_left p (joined id c history)

  cleaned : cleanup_stream b_joined p ≡ with_stream b_joined p (stopped id c history)
  unfolding cleanup_stream
  cleaned =
      ap
        (λ (x : SharedLogStream).
          with_stream b_joined p (record x { started = false; stopping = false }))
        (put_stream_same b_left.heap p (joined id c history))

  abbrev b_stopped : LogBroadcaster
  b_stopped = with_stream b_joined p (stopped id c history)

  abbrev last : System
  last = record s { b = cleanup_map b_stopped p }

  abbrev at_find : System
  at_find = record s { joining = (c, p) ∷ s.joining }

  abbrev at_look_up : System
  at_look_up = record at_find { leaving = (a, p) ∷ s.leaving }

  abbrev at_leave : System
  at_leave = record at_find { b = b_left }

  abbrev at_join : System
  at_join = record s { b = b_joined }

  abbrev at_stop : System
  at_stop = record at_join { ending = p ∷ s.ending }

  abbrev at_reset : System
  at_reset = record s { b = b_stopped; cleaning = p ∷ s.cleaning }

  stream_joined : b_joined.heap p ≡ joined id c history
  stream_joined = put_stream_same b_left.heap p (joined id c history)

  stream_stopped : b_stopped.heap p ≡ stopped id c history
  stream_stopped = put_stream_same b_joined.heap p (stopped id c history)

  dropped : (k : Text) → drop_key s.b.streams id p (some p) k ≢ some p
  dropped k =
      if-rule (λ (f : Text → Option ℕ). f k ≢ some p) (p == p) _ _
        (λ e.
          if-rule (λ x. x ≢ some p) (text_eq k id) none (s.b.streams k) (λ f g. cc)
            (λ f g. let is_id = alone.only k g in cc))
        (λ e. let same = self p in cc)

  unmapped : (k : Text) → last.b.streams k ≢ some p
  unfolding cleanup_map
  unmapped k =
      let key : (b_stopped.heap p).container_id ≡ id =
        ap (λ (x : SharedLogStream). x.container_id) stream_stopped in
      subst (λ key. drop_key s.b.streams key p (s.b.streams key) k ≢ some p) (sym key)
        (subst (λ o. drop_key s.b.streams id p o k ≢ some p) (sym alone.mapped) (dropped k))

  left_from : Steps s at_leave
  left_from =
      behind s at_look_up at_leave
        (behind s at_find at_look_up (behind s s at_find (done s) (find id c s.b p found))
          (look_up id a p looked_up))
        (subst (λ x. Step at_look_up (record at_find { b = x })) released
          (leave a p [] s.leaving refl))

  stopped_from : Steps s at_stop
  stopped_from =
      behind s at_join at_stop
        (behind s at_leave at_join left_from
          (subst (λ x. Step at_leave (record s { b = x })) rejoined (join c p [] s.joining refl)))
        (stop p (ap (λ (x : SharedLogStream). x.started) stream_joined) alone.running
          (ap (λ (x : SharedLogStream). x.cancelled || not (has_subscribers x)) stream_joined))

  trace : Steps s last
  trace =
      behind s at_reset last
        (behind s at_stop at_reset stopped_from (
          subst (λ x. Step at_stop (record s { b = x; cleaning = p ∷ s.cleaning })) cleaned
            (reset p [] s.ending refl)))
        (clean p [] s.cleaning refl)

  last-IsLost : IsLost p c last
  unfolding cleanup_map
  last-IsLost = record {
    holds = record {
      subscribed =
          ap (λ (x : SharedLogStream). any (λ d. d == c) x.subscribers) stream_stopped
          ∙ ||-left (c == c) false (self c);
      idle = ap (λ (x : SharedLogStream). x.started) stream_stopped;
      unmapped = unmapped;
      allocated = alone.allocated;
    };
    unclaimed = alone.unclaimed;
    unreleased = alone.unreleased;
  }

-- From every state in which a served stream has one subscriber, is the entry of its container and of
-- no other, is on the way of no other call of `subscribe` or `release`, and its goroutine has not come
-- to its end: steps of the callers and of the goroutine lead to a state in which any other channel is
-- lost. It subscribes, and between the two sections of that call the subscriber leaves.
pub race-IsLost :
    (id : Text) (a c p : ℕ) (history : List Text) (s : System)
    → IsAlone id a p history s
    → (t : System) × Steps s t × IsLost p c t
race-IsLost id a c p history s alone = (
  last id a c p history s alone,
  trace id a c p history s alone,
  last-IsLost id a c p history s alone,
)
