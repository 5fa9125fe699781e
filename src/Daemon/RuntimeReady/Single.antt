-- ===== src/Daemon/RuntimeReady/Single.antt =====
-- runtime_ready.go: the callers share one start.
use calf.Common.{
  ℕ, ◌≡◌, ◌⊎◌, refl, sym, ap, subst, ◌∙◌, Option, none, some, List, [], ◌∷◌, ◌++◌, ◌==◌,
  if◌then◌else◌, All, All-map, if-rule, ==_iff, inl, inr,
}
use calf.Strings.{Text}
use calf.Daemon.RuntimeReady.{
  Starts, join_start, ensure_runtime_running, end_start, Step, call, finish, give_back, Reached,
  fresh, go_on,
}

abbrev pub start_of : Option ℕ → List ℕ
start_of none = []
start_of (some p) = p ∷ []

-- The start has ended, or it is the one in flight.
abbrev pub IsComing : Option ℕ → (ℕ → Option (Option Text)) → ℕ → Type 0
IsComing inflight ended p = ((error : Option Text) × (ended p ≡ some error)) ⊎ (inflight ≡ some p)

-- The goroutines are the start in flight, and a caller waits for what has ended or is in flight.
pub record IsSingle (s : Starts) : Type 0 where
  pub one : s.running ≡ start_of s.inflight
  pub coming : All (IsComing s.inflight s.ended) s.waiting

All-without :
    (P : ℕ → Type 0) (xs : List ℕ) (y : ℕ) (ys : List ℕ) → All P (xs ++ (y ∷ ys)) → All P (xs ++ ys)
All-without P [] y ys (h, k) = k
All-without P (x ∷ xs) y ys (h, k) = (h, All-without P xs y ys k)

join-IsSingle :
    (s : Starts) (o : Option ℕ) → s.inflight ≡ o → IsSingle s → IsSingle (join_start s o)
join-IsSingle s (some p) e l = record { one = l.one; coming = (inr e, l.coming) }
join-IsSingle s none e l = record {
  one = ap (λ xs. s.next ∷ xs) (l.one ∙ ap start_of e);
  coming = (
    inr refl,
    All-map _ (IsComing (some s.next) s.ended) (λ p c. elim c [ inl f ↦ inl f | inr f ↦ cc ])
        s.waiting l.coming,
  );
}

-- One goroutine: the one that ends is that of the start in flight.
only :
    (o : Option ℕ) (p : ℕ) (before after : List ℕ)
    → start_of o ≡ before ++ (p ∷ after)
    → (before ++ after ≡ []) × (o ≡ some p)
only none p [] after h = cc
only none p (b ∷ before) after h = cc
only (some q) p [] after h = (sym (ap tail h), ap some (ap head h))
  where
    tail : List ℕ → List ℕ
    tail [] = []
    tail (x ∷ xs) = xs

    head : List ℕ → ℕ
    head [] = p
    head (x ∷ xs) = x
only (some q) p (b ∷ []) after h = cc
only (some q) p (b ∷ c ∷ before) after h = cc

ended-IsComing :
    (s : Starts) (p : ℕ) (error : Option Text) (q : ℕ)
    → s.inflight ≡ some p
    → IsComing s.inflight s.ended q
    → IsComing none (λ r. if r == p then some error else s.ended r) q
ended-IsComing s p error q e c =
    if-rule (λ (o : Option (Option Text)). ((x : Option Text) × (o ≡ some x)) ⊎ (none ≡ some q))
      (q == p) _ _ (λ f. inl (error, refl))
      (λ f. elim c [
        | inl g ↦ inl g
        | inr g ↦ let same : q ≡ p = cc in let self = (==_iff q p).1 same in cc
      ])

step-IsSingle : (s t : Starts) → Step s t → IsSingle s → IsSingle t
unfolding ensure_runtime_running end_start
step-IsSingle s _ call l = join-IsSingle s s.inflight refl l
step-IsSingle s _ (finish p error before after e) l =
    let (nothing, flying) = only s.inflight p before after (sym l.one ∙ e) in
    record {
      one = nothing;
      coming =
          All-map _ (IsComing none _) (λ q c. ended-IsComing s p error q flying c) s.waiting
            l.coming;
    }
step-IsSingle s _ (give_back p before after e) l = record {
  one = l.one;
  coming = All-without _ before p after (subst (All _) e l.coming);
}

-- In every state that calls, ends of starts and returns of callers reach: the goroutines that start
-- the engine are none, or one, that of the start in flight; and the start that a caller waits for has
-- ended, or is in flight.
pub Reached-IsSingle : (s : Starts) → Reached s → IsSingle s
Reached-IsSingle _ fresh = record { one = refl; coming = tt }
Reached-IsSingle t (go_on s _ r step) = step-IsSingle s t step (Reached-IsSingle s r)
