-- ===== src/Daemon/LogBroadcaster/Lost.antt =====
-- The interleavings of log_broadcaster.go: the sections under the locks as steps, and a subscriber that
-- no stream serves.
use calf.Common.{
  ℕ, ◌<◌, ◌≡◌, ◌≢◌, refl, sym, ap, subst, ◌∙◌, true, false, not, Option, none, some, List, [], ◌∷◌,
  ◌++◌, ◌==◌, ◌||◌, any, All, arith, if-rule, ==_iff,
}
use calf.Strings.{Text, text_eq}
use calf.Daemon.LogBroadcaster.{
  SharedLogStream, LogBroadcaster, has_subscribers, put_stream, allocate, find_or_allocate,
  subscribe_find, subscribe_join, release_find, release_leave, cleanup_stream, drop_key,
  cleanup_map, new_stream,
}

-- The broadcaster with the calls of `subscribe` and of `release` between their two sections, each a
-- channel and the place of its stream, and the goroutines of streams that go to `cleanupStream`, or
-- are between its sections.
pub record System : Type 0 where
  pub b : LogBroadcaster
  pub joining : List (ℕ × ℕ)
  pub leaving : List (ℕ × ℕ)
  pub ending : List ℕ
  pub cleaning : List ℕ

-- Each section under a lock is a step, and so is the end of a goroutine's loop, where it is cancelled
-- or meets no subscribers. A `release` that finds no stream changes nothing.
pub data Step (s : System) : System → Type 0 where
  find :
      (id : Text) (ch : ℕ) (b' : LogBroadcaster) (p : ℕ)
      → subscribe_find s.b id ≡ (b', p)
      → Step s (record s { b = b'; joining = (ch, p) ∷ s.joining })
  join :
      (ch p : ℕ) (before after : List (ℕ × ℕ))
      → s.joining ≡ before ++ ((ch, p) ∷ after)
      → Step s (record s { b = subscribe_join s.b p ch; joining = before ++ after })
  look_up :
      (id : Text) (ch p : ℕ)
      → release_find s.b id ≡ some p
      → Step s (record s { leaving = (ch, p) ∷ s.leaving })
  leave :
      (ch p : ℕ) (before after : List (ℕ × ℕ))
      → s.leaving ≡ before ++ ((ch, p) ∷ after)
      → Step s (record s { b = release_leave s.b p ch; leaving = before ++ after })
  stop :
      (p : ℕ)
      → (s.b.heap p).started ≡ true
      → All (λ q. q ≢ p) s.ending
      → ((s.b.heap p).cancelled || not (has_subscribers (s.b.heap p))) ≡ true
      → Step s (record s { ending = p ∷ s.ending })
  reset :
      (p : ℕ) (before after : List ℕ)
      → s.ending ≡ before ++ (p ∷ after)
      → Step s (record s {
        b = cleanup_stream s.b p;
        ending = before ++ after;
        cleaning = p ∷ s.cleaning;
      })
  clean :
      (p : ℕ) (before after : List ℕ)
      → s.cleaning ≡ before ++ (p ∷ after)
      → Step s (record s { b = cleanup_map s.b p; cleaning = before ++ after })

pub data Steps : System → System → Type 0 where
  done : (s : System) → Steps s s
  behind : (s t u : System) → Steps s t → Step t u → Steps s u

-- The channel is a subscriber of a stream that has no goroutine and is in no entry of the map.
pub record Holds (p ch : ℕ) (b : LogBroadcaster) : Type 0 where
  pub subscribed : any (λ c. c == ch) (b.heap p).subscribers ≡ true
  pub idle : (b.heap p).started ≡ false
  pub unmapped : (id : Text) → b.streams id ≢ some p
  pub allocated : p < b.next

-- And no call of `subscribe` or `release` is between its sections with this stream.
pub record IsLost (p ch : ℕ) (s : System) : Type 0 where
  pub holds : Holds p ch s.b
  pub unclaimed : All (λ (j : ℕ × ℕ). j.1 ≢ p) s.joining
  pub unreleased : All (λ (j : ℕ × ℕ). j.1 ≢ p) s.leaving

-- A change of another place.
put_stream_other :
    (heap : ℕ → SharedLogStream) (p q : ℕ) (stream : SharedLogStream)
    → q ≢ p
    → put_stream heap p stream q ≡ heap q
put_stream_other heap p q stream h =
    if-rule (λ x. x ≡ heap q) (q == p) stream (heap q) (λ e. absurd (h ((==_iff q p).0 e)))
      (λ e. refl)

put-Holds :
    (p ch q : ℕ) (b : LogBroadcaster) (stream : SharedLogStream)
    → p ≢ q
    → Holds p ch b
    → Holds p ch (record b { heap = put_stream b.heap q stream })
put-Holds p ch q b stream h k =
    let same = put_stream_other b.heap q p stream h in
    record {
      subscribed =
          subst (λ (x : SharedLogStream). any (λ c. c == ch) x.subscribers ≡ true) (sym same)
            k.subscribed;
      idle = subst (λ (x : SharedLogStream). x.started ≡ false) (sym same) k.idle;
      unmapped = k.unmapped;
      allocated = k.allocated;
    }

some-inj : {a b : ℕ} → some a ≡ some b → a ≡ b
some-inj h = cc

allocate-Holds :
    (p ch : ℕ) (b : LogBroadcaster) (id : Text)
    → Holds p ch b
    → Holds p ch (allocate b id).0 × ((allocate b id).1 ≢ p)
allocate-Holds p ch b id k =
    let other : p ≢ b.next = λ e. absurd (omega (arith, k.allocated, e)) in
    let put = put-Holds p ch b.next b (new_stream id) other k in
    (
      record {
        subscribed = put.subscribed;
        idle = put.idle;
        unmapped = λ i.
            if-rule (λ x. x ≢ some p) (text_eq i id) (some b.next) (b.streams i)
              (λ e f. other (sym (some-inj f))) (λ e. k.unmapped i);
        allocated = omega (arith, k.allocated);
      },
      λ e. other (sym e),
    )

find_or_allocate-Holds :
    (p ch : ℕ) (b : LogBroadcaster) (id : Text) (o : Option ℕ)
    → o ≢ some p
    → Holds p ch b
    → Holds p ch (find_or_allocate b id o).0 × ((find_or_allocate b id o).1 ≢ p)
find_or_allocate-Holds p ch b id none h k = allocate-Holds p ch b id k
find_or_allocate-Holds p ch b id (some q) h k =
    if-rule (λ (x : LogBroadcaster × ℕ). Holds p ch x.0 × (x.1 ≢ p)) (b.heap q).stopping _ _
      (λ e. allocate-Holds p ch b id k) (λ e. (k, λ f. h (ap some f)))

-- The first section of `cleanupStream`, on any stream.
cleanup_stream-Holds :
    (p ch q : ℕ) (b : LogBroadcaster) → Holds p ch b → Holds p ch (cleanup_stream b q)
unfolding cleanup_stream
cleanup_stream-Holds p ch q b k =
    let (subscribed, idle) =
      if-rule
        (λ (x : SharedLogStream). (any (λ c. c == ch) x.subscribers ≡ true) × (x.started ≡ false))
        (p == q) (record (b.heap q) { started = false; stopping = false }) (b.heap p)
        (λ e. (
          subst (λ r. any (λ c. c == ch) (b.heap r).subscribers ≡ true) ((==_iff p q).0 e)
              k.subscribed,
          refl,
        ))
        (λ e. (k.subscribed, k.idle)) in
    record { subscribed = subscribed; idle = idle; unmapped = k.unmapped; allocated = k.allocated }

drop_key-other :
    (streams : Text → Option ℕ) (k : Text) (q : ℕ) (o : Option ℕ) (p : ℕ)
    → ((id : Text) → streams id ≢ some p)
    → (id : Text) → drop_key streams k q o id ≢ some p
drop_key-other streams k q none p h id = h id
drop_key-other streams k q (some r) p h id =
    if-rule (λ (f : Text → Option ℕ). f id ≢ some p) (r == q) _ _
      (λ e. if-rule (λ x. x ≢ some p) (text_eq id k) _ _ (λ f g. cc) (λ f. h id)) (λ e. h id)

All-middle :
    {A : Type 0} (P : A → Type 0) (xs : List A) (y : A) (ys : List A)
    → All P (xs ++ (y ∷ ys))
    → P y × All P (xs ++ ys)
All-middle P [] y ys (h, k) = (h, k)
All-middle P (x ∷ xs) y ys (h, k) = let (g, f) = All-middle P xs y ys k in (g, (h, f))

step-IsLost : (p ch : ℕ) (s t : System) → Step s t → IsLost p ch s → IsLost p ch t
unfolding subscribe_find subscribe_join release_find release_leave cleanup_map
step-IsLost p ch s _ (find id c b' q e) l =
    let (h, k) =
      find_or_allocate-Holds p ch s.b id (s.b.streams id) (l.holds.unmapped id) l.holds in
    record {
      holds = subst (λ (x : LogBroadcaster × ℕ). Holds p ch x.0) e h;
      unclaimed = (subst (λ (x : LogBroadcaster × ℕ). x.1 ≢ p) e k, l.unclaimed);
      unreleased = l.unreleased;
    }
step-IsLost p ch s _ (join c q before after e) l =
    let (other, rest) = All-middle _ before (c, q) after (subst (All _) e l.unclaimed) in
    record {
      holds = put-Holds p ch q s.b _ (λ f. other (sym f)) l.holds;
      unclaimed = rest;
      unreleased = l.unreleased;
    }
step-IsLost p ch s _ (look_up id c q e) l = record {
  holds = l.holds;
  unclaimed = l.unclaimed;
  unreleased = (λ f. l.holds.unmapped id (e ∙ ap some f), l.unreleased);
}
step-IsLost p ch s _ (leave c q before after e) l =
    let (other, rest) = All-middle _ before (c, q) after (subst (All _) e l.unreleased) in
    record {
      holds = put-Holds p ch q s.b _ (λ f. other (sym f)) l.holds;
      unclaimed = l.unclaimed;
      unreleased = rest;
    }
step-IsLost p ch s _ (stop q started alone cancelled) l = record {
  holds = l.holds;
  unclaimed = l.unclaimed;
  unreleased = l.unreleased;
}
step-IsLost p ch s _ (reset q before after e) l = record {
  holds = cleanup_stream-Holds p ch q s.b l.holds;
  unclaimed = l.unclaimed;
  unreleased = l.unreleased;
}
step-IsLost p ch s _ (clean q before after e) l = record {
  holds = record {
    subscribed = l.holds.subscribed;
    idle = l.holds.idle;
    unmapped = drop_key-other s.b.streams (s.b.heap q).container_id q _ p l.holds.unmapped;
    allocated = l.holds.allocated;
  };
  unclaimed = l.unclaimed;
  unreleased = l.unreleased;
}

-- A lost channel, which subscribes to a stream that has no goroutine and no entry in the map, while no
-- call of `subscribe` or `release` is on its way to that stream, stays lost, whatever the callers and
-- the goroutines do next.
pub Steps-IsLost : (p ch : ℕ) (s t : System) → Steps s t → IsLost p ch s → IsLost p ch t
Steps-IsLost p ch s _ (done _) l = l
Steps-IsLost p ch s u (behind _ t _ first next) l =
    step-IsLost p ch t u next (Steps-IsLost p ch s t first l)
