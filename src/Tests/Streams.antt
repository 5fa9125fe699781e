-- ===== src/Tests/Streams.antt =====
-- Examples of the interleavings: the log broadcaster and the shared start; and of the captured lists.
use calf.Common.{◌≡◌, refl, true, none, some, [], ◌∷◌, arith, Bool-cases, inl, inr}
use calf.Strings.{text, text_eq, Text}
use calf.Daemon.RuntimeReady.{Starts, no_starts, ensure_runtime_running, Step, call, fresh, go_on}
use calf.Daemon.RuntimeReady.Single.{IsSingle, Reached-IsSingle}
use calf.Daemon.LogBroadcaster.{put_stream, put_key, new_stream, subscribe_find, allocate}
use calf.Daemon.LogBroadcaster.Lost.{System, find, Steps, done, behind, IsLost, Steps-IsLost}
use calf.Daemon.LogBroadcaster.Race.{served, stopped, race-IsLost}

abbrev one_viewer : System
one_viewer = record {
  b = record {
    streams = put_key (λ id. none) (text "c1") (some 0);
    heap = put_stream (λ q. new_stream []) 0 (served (text "c1") 1 []);
    next = 1;
  };
  joining = [];
  leaving = [];
  ending = [];
  cleaning = [];
}

one_entry : (k : Text) → one_viewer.b.streams k ≡ some 0 → text_eq k (text "c1") ≡ true
one_entry k h = elim (Bool-cases (text_eq k (text "c1"))) [ inl e ↦ e | inr e ↦ cc (rw e at h) ]

one_mapped : one_viewer.b.streams (text "c1") ≡ some 0
unfolding text_eq
one_mapped = refl

race-IsLost_example : (t : System) × Steps one_viewer t × IsLost 0 2 t
race-IsLost_example = race-IsLost (text "c1") 1 2 0 [] one_viewer (record {
  mapped = one_mapped;
  only = one_entry;
  stream = refl;
  allocated = omega arith;
  unclaimed = tt;
  unreleased = tt;
  running = tt;
})

abbrev lost_viewer : System
lost_viewer = record {
  b = record {
    streams = λ id. none;
    heap = put_stream (λ q. new_stream []) 0 (stopped (text "c1") 2 []);
    next = 1;
  };
  joining = [];
  leaving = [];
  ending = [];
  cleaning = [];
}

-- Another viewer of the same container gets another stream.
abbrev found_again : System
found_again = record lost_viewer {
  b = (allocate lost_viewer.b (text "c1")).0;
  joining = (3, 1) ∷ [];
}

finds : subscribe_find lost_viewer.b (text "c1") ≡ ((allocate lost_viewer.b (text "c1")).0, 1)
unfolding subscribe_find
finds = refl

Steps-IsLost_example : IsLost 0 2 found_again
Steps-IsLost_example =
    Steps-IsLost 0 2 lost_viewer found_again
      (behind lost_viewer lost_viewer found_again (done lost_viewer)
        (find (text "c1") 3 (allocate lost_viewer.b (text "c1")).0 1 finds))
      (record {
        holds = record {
          subscribed = refl;
          idle = refl;
          unmapped = λ id h. cc;
          allocated = omega arith;
        };
        unclaimed = tt;
        unreleased = tt;
      })

abbrev called : Starts
called = record {
  inflight = some 0;
  ended = λ p. none;
  next = 1;
  running = 0 ∷ [];
  waiting = 0 ∷ [];
}

called_once : Step no_starts called
unfolding ensure_runtime_running
called_once = call

Reached-IsSingle_example : IsSingle called
Reached-IsSingle_example = Reached-IsSingle called (go_on no_starts called fresh called_once)
