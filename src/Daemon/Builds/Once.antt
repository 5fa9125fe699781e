-- ===== src/Daemon/Builds/Once.antt =====
-- backend/internal/daemon/build_sync.go: a row of buildkit's history is in the list of builds once at
-- most.
use calf.Common.{
  ℕ, zero, suc, ◌+◌, ◌≡◌, refl, sym, ap, ap₂, subst, ◌∙◌, Bool, true, false, not, ◌||◌, List, [],
  ◌∷◌, ◌++◌, any, map, take, leb, length, All, All-of_In, All-keep, In, inl, inr, if-rule,
  Bool-cases, ||-left, ||-right, ||-true, ||-false,
}
use calf.Strings.{Text, text_eq, is_empty}
use calf.Strings.Laws.{text_eq_refl, text_eq→eq}
use calf.BuildHistory.{Row, history_id, merge_rows, row_by_history_id}
use calf.BuildHistory.Merge.{AreNew, merge_rows-once}
use calf.Runtime.Build.{Build, is_none}
use calf.Daemon.Builds.{Core, persist_builds_locked, trim_builds, max_builds}
use calf.Daemon.Builds.Enrich.{History, base_build_from_history_row}
use calf.Daemon.Builds.Sync.{
  sync_items, known_refs, enrich_items, import_builds, write_enriched, number_builds, any_changed,
  store_synced, sync_build_history,
}
use calf.Daemon.Builds.Refs.{
  refs, NoRepeat, IsKeyed, Fits, enrich_history_build-Has, enrich_items-Fits, refs-write_enriched,
}

refs-append : (xs ys : List Build) → refs (xs ++ ys) ≡ refs xs ++ refs ys
refs-append [] ys = refl
refs-append (x ∷ xs) ys = ap (λ zs. x.history_ref ∷ zs) (refs-append xs ys)

refs-number_builds :
    (h : History) (seq : ℕ) (builds : List Build)
    → refs (number_builds h seq builds).0 ≡ refs builds
refs-number_builds h seq [] = refl
refs-number_builds h seq (build ∷ builds) =
    ap (λ zs. build.history_ref ∷ zs) (refs-number_builds h (seq + 1) builds)

ids : List Row → List Text
ids rows = map history_id rows

refs-import_builds :
    (h : History) (rows : List Row) (skipped : List Text)
    → refs (import_builds h rows skipped).0 ≡ ids rows
unfolding base_build_from_history_row ids
refs-import_builds h [] skipped = refl
refs-import_builds h (row ∷ rows) skipped =
    ap₂ (λ (x : Text) (xs : List Text). x ∷ xs)
      (enrich_history_build-Has h (base_build_from_history_row h row) skipped)
      (refs-import_builds h rows _)

-- The new references come behind none of the old.
any-append-false :
    (p : Text → Bool) (xs ys : List Text)
    → any p xs ≡ false
    → any p ys ≡ false
    → any p (xs ++ ys) ≡ false
any-append-false p [] ys h k = k
any-append-false p (x ∷ xs) ys h k =
    let (f, g) = ||-false (p x) (any p xs) h in
    let rest = any-append-false p xs ys g k in rw (f, rest) refl

text_eq_sym : (s t : Text) → text_eq s t ≡ true → text_eq t s ≡ true
text_eq_sym s t h = subst (λ u. text_eq u s ≡ true) (text_eq→eq s t h) (text_eq_refl s)

new-other :
    (known : List Text) (rows : List Row) (k : Text)
    → AreNew known rows
    → any (text_eq k) known ≡ true
    → any (text_eq k) (ids rows) ≡ false
unfolding ids
new-other known [] k new h = refl
new-other known (row ∷ rows) k (full, fresh, new) h =
    let rest = new-other (history_id row ∷ known) rows k new (||-right _ _ h) in
    elim (Bool-cases (text_eq k (history_id row))) [
      | inr e ↦ rw (e, rest) refl
      | inl e ↦
          let again : any (text_eq (history_id row)) known ≡ true =
            subst (λ i. any (text_eq i) known ≡ true) (text_eq→eq k (history_id row) e) h in
          cc
    ]

-- Every reference of the list is known.
Covers : List Text → List Text → Type 0
Covers known all_refs =
    (k : Text) → is_empty k ≡ false → any (text_eq k) all_refs ≡ true → any (text_eq k) known ≡ true

any-not-true : (b : Bool) → (b ≡ true → ⊥) → b ≡ false
any-not-true true h = absurd (h refl)
any-not-true false h = refl

new-NoRepeat :
    (known all_refs : List Text) (rows : List Row)
    → AreNew known rows
    → Covers known all_refs
    → NoRepeat all_refs
    → NoRepeat (ids rows ++ all_refs)
unfolding ids Covers
new-NoRepeat known all_refs [] new covers once = once
new-NoRepeat known all_refs (row ∷ rows) (full, fresh, new) covers once =
    let id = history_id row in
    let in_old : any (text_eq id) all_refs ≡ false =
      any-not-true (any (text_eq id) all_refs) (λ e. let again = covers id full e in cc) in
    let in_new = new-other (id ∷ known) rows id new (||-left _ _ (text_eq_refl id)) in
    let nowhere = any-append-false (text_eq id) (ids rows) all_refs in_new in_old in
    (
      ||-right (is_empty id) _ (ap not nowhere),
      new-NoRepeat (id ∷ known) all_refs rows new
          (λ k e f. ||-right (text_eq k id) _ (covers k e f)) once,
    )

known_refs-Covers : (builds : List Build) → Covers (known_refs builds) (refs builds)
unfolding Covers
known_refs-Covers [] k full h = cc
known_refs-Covers (b ∷ builds) k full h =
    let rest : any (text_eq k) (refs builds) ≡ true → any (text_eq k) (known_refs builds) ≡ true =
      known_refs-Covers builds k full in
    elim (||-true (text_eq k b.history_ref) _ h) [
      | inl e ↦
          let kept : not (is_empty b.history_ref) ≡ true =
            ap not (subst (λ (r : Text). is_empty r ≡ false) (text_eq→eq k b.history_ref e) full) in
          rw kept (||-left _ _ e)
      | inr e ↦
          if-rule
            (λ (xs : List Build). any (text_eq k) (map (λ (c : Build). c.history_ref) xs) ≡ true)
            (not (is_empty b.history_ref)) (b ∷ sync_items builds) (sync_items builds)
            (λ f. ||-right (text_eq k b.history_ref) _ (rest e)) (λ f. rest e)
    ]

-- The builds that are kept are the first ones.
any-take :
    (k : Text) (n : ℕ) (builds : List Build)
    → any (text_eq k) (refs builds) ≡ false
    → any (text_eq k) (refs (take n builds)) ≡ false
any-take k zero builds h = refl
any-take k (suc n) [] h = refl
any-take k (suc n) (b ∷ builds) h =
    let (f, g) = ||-false (text_eq k b.history_ref) _ h in
    let rest = any-take k n builds g in rw (f, rest) refl

take-NoRepeat :
    (n : ℕ) (builds : List Build) → NoRepeat (refs builds) → NoRepeat (refs (take n builds))
take-NoRepeat zero builds h = tt
take-NoRepeat (suc n) [] h = tt
take-NoRepeat (suc n) (b ∷ builds) (h, k) = (
  elim (||-true (is_empty b.history_ref) _ h) [
    | inl e ↦ ||-left _ _ e
    | inr e ↦
        let none_left : any (text_eq b.history_ref) (refs builds) ≡ false =
          any-not-true _ (λ f. cc) in
        ||-right (is_empty b.history_ref) _ (ap not (any-take b.history_ref n builds none_left))
  ],
  take-NoRepeat n builds k,
)

trim_builds-NoRepeat :
    (builds : List Build) → NoRepeat (refs builds) → NoRepeat (refs (trim_builds builds))
unfolding trim_builds
trim_builds-NoRepeat builds h =
    if-rule (λ (bs : List Build). NoRepeat (refs bs)) (leb (length builds) max_builds) _ _ (λ e. h)
      (λ e. take-NoRepeat max_builds builds h)

store_synced-NoRepeat :
    (h : History) (enriched : List (Text × Build)) (imported : List Build) (s : Core)
    → NoRepeat
        (refs ((number_builds h s.build_seq imported).0 ++ write_enriched h enriched s.builds))
    → NoRepeat (refs (store_synced h enriched imported s).builds)
unfolding persist_builds_locked
store_synced-NoRepeat h enriched imported s once =
    if-rule (λ (t : Core). NoRepeat (refs t.builds))
      (any_changed h enriched s.builds || not (is_none imported)) _ _
      (λ e. trim_builds-NoRepeat _ once) (λ e. once)

-- Where no reference to buildkit's history is in the list of builds twice, and builds of one ID have
-- one reference, a sync with any rows of the history leaves no reference in the list twice: no row is
-- imported a second time.
pub sync_build_history-NoRepeat :
    (h : History) (rows : List Row) (s : Core)
    → NoRepeat (refs s.builds)
    → IsKeyed s.builds
    → NoRepeat (refs (sync_build_history h rows s).builds)
unfolding sync_build_history
sync_build_history-NoRepeat h rows s once keyed =
    let items = enrich_items h (sync_items s.builds) (row_by_history_id rows) [] s.skipped in
    let new = (merge_rows (known_refs s.builds) rows).0 in
    let imported = import_builds h new items.1 in
    let own : All (λ b. In b s.builds) s.builds = All-of_In _ s.builds (λ b i. i) in
    let fits : All (Fits s.builds) items.0 =
      enrich_items-Fits h s.builds (sync_items s.builds) (row_by_history_id rows) [] s.skipped keyed
        (All-keep (λ b. In b s.builds) (λ (b : Build). not (is_empty b.history_ref)) s.builds own)
        tt in
    let same : refs
          ((number_builds h s.build_seq imported.0).0 ++ write_enriched h items.0 s.builds)
        ≡ ids new ++ refs s.builds =
      refs-append (number_builds h s.build_seq imported.0).0 (write_enriched h items.0 s.builds)
      ∙ ap₂ (λ (xs ys : List Text). xs ++ ys)
          (refs-number_builds h s.build_seq imported.0 ∙ refs-import_builds h new items.1)
          (refs-write_enriched h s.builds s.builds items.0 own fits) in
    if-rule (λ (t : Core). NoRepeat (refs t.builds)) (is_none rows) _ _ (λ e. once)
      (λ e.
        store_synced-NoRepeat h items.0 imported.0 (record s { skipped = imported.1 })
          (subst NoRepeat (sym same) (
            new-NoRepeat (known_refs s.builds) (refs s.builds) new
              (merge_rows-once (known_refs s.builds) rows).0 (known_refs-Covers s.builds) once)))
