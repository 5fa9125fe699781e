-- ===== src/Daemon/LogBroadcaster/Lines.antt =====
-- The lines that `publish` of log_broadcaster.go keeps and sends.
use mathlib.Core.List.{append-nil}
use calf.Common.{
  ||-false, ==_iff, any, take, subst, ℕ, zero, suc, ◌+◌, ◌-◌, ◌≤◌, ◌≡◌, refl, sym, ap, ◌∙◌, true,
  false, List, [], ◌∷◌, ◌++◌, ltb, arith, length, drop, length-append, length-drop, if◌then◌else◌,
  Bool-cases, inl, inr, ◌==◌,
}
use calf.Strings.{Text}
use calf.Daemon.LogBroadcaster.{
  SharedLogStream, log_tail_line_count, channel_size, keep_tail, try_send_log_line, send_all,
  publish,
}

-- The stream and the buffers behind a list of lines.
abbrev pub publish_all :
    SharedLogStream → (ℕ → List Text) → List Text → SharedLogStream × (ℕ → List Text)
publish_all s buffers [] = (s, buffers)
publish_all s buffers (line ∷ lines) =
    let (s', buffers') = publish s buffers line in publish_all s' buffers' lines

-- The last `n` lines.
abbrev pub last_lines : ℕ → List Text → List Text
last_lines n lines = drop (length lines - n) lines

drop-append : (k : ℕ) (xs ys : List Text) → k ≤ length xs → drop k xs ++ ys ≡ drop k (xs ++ ys)
drop-append zero xs ys h = refl
drop-append (suc k) [] ys h = absurd (omega arith)
drop-append (suc k) (x ∷ xs) ys h = drop-append k xs ys (omega arith)

drop-drop : (a b : ℕ) (xs : List Text) → drop a (drop b xs) ≡ drop (b + a) xs
drop-drop a zero xs = let e : 0 + a ≡ a = omega arith in rw e
drop-drop zero (suc b) [] = let e : suc b + 0 ≡ suc b = omega arith in rw e refl
drop-drop (suc a) (suc b) [] = let e : suc b + suc a ≡ suc (b + suc a) = omega arith in rw e refl
drop-drop a (suc b) (x ∷ xs) =
    let e : suc b + a ≡ suc (b + a) = omega arith in rw e (drop-drop a b xs)

drop_zero : (k : ℕ) (xs : List Text) → k ≡ 0 → drop k xs ≡ xs
drop_zero k xs e = rw e

keep_tail_lem : (lines : List Text) → keep_tail lines ≡ last_lines log_tail_line_count lines
unfolding keep_tail
keep_tail_lem lines = elim (Bool-cases (ltb log_tail_line_count (length lines))) [
  | inl e ↦ rw e refl
  | inr e ↦ rw e (sym (drop_zero _ lines (ground arith)))
]

last_lines-append :
    (n : ℕ) (xs ys : List Text) → last_lines n (last_lines n xs ++ ys) ≡ last_lines n (xs ++ ys)
last_lines-append n xs ys =
    let k = length xs - n in
    let joined = drop-append k xs ys (omega arith) in
    let count : length (drop k xs ++ ys) ≡ length xs - k + length ys =
      length-append (drop k xs) ys ∙ ap (λ (m : ℕ). m + length ys) (length-drop k xs) in
    let whole : k + (length xs - k + length ys - n) ≡ length (xs ++ ys) - n =
      omega (arith, length-append xs ys) in
    ap (λ (m : ℕ). drop (m - n) (drop k xs ++ ys)) count
    ∙ (ap (drop (length xs - k + length ys - n)) joined
        ∙ (drop-drop (length xs - k + length ys - n) k (xs ++ ys)
            ∙ ap (λ (m : ℕ). drop m (xs ++ ys)) whole))

last_lines_short : (n : ℕ) (xs : List Text) → length xs ≤ n → last_lines n xs ≡ xs
last_lines_short n xs h = drop_zero (length xs - n) xs (omega arith)

append_assoc_one :
    (xs : List Text) (y : Text) (ys : List Text) → (xs ++ (y ∷ [])) ++ ys ≡ xs ++ (y ∷ ys)
append_assoc_one [] y ys = refl
append_assoc_one (x ∷ xs) y ys = ap (λ zs. x ∷ zs) (append_assoc_one xs y ys)

length-last_lines-le : (n : ℕ) (xs : List Text) → length (last_lines n xs) ≤ n
length-last_lines-le n xs = omega (arith, length-drop (length xs - n) xs)

history_lem :
    (s : SharedLogStream) (buffers : ℕ → List Text) (lines : List Text)
    → length s.history ≤ log_tail_line_count
    → (publish_all s buffers lines).0.history ≡ last_lines log_tail_line_count (s.history ++ lines)
unfolding publish
history_lem s buffers [] h = sym (
    last_lines_short log_tail_line_count (s.history ++ [])
      (omega (arith, length-append s.history []))
    ∙ append-nil s.history)
history_lem s buffers (line ∷ lines) h =
    let tail = keep_tail_lem (s.history ++ (line ∷ [])) in
    history_lem (publish s buffers line).0 (publish s buffers line).1 lines
      (rw tail (length-last_lines-le log_tail_line_count (s.history ++ (line ∷ []))))
    ∙ (ap (λ t. last_lines log_tail_line_count (t ++ lines)) tail
        ∙ (last_lines-append log_tail_line_count (s.history ++ (line ∷ [])) lines
            ∙ ap (last_lines log_tail_line_count) (append_assoc_one s.history line lines)))

-- The channels are different.
abbrev pub AreDistinct : List ℕ → Type 0
AreDistinct [] = Unit
AreDistinct (c ∷ cs) = (any (λ d. d == c) cs ≡ false) × AreDistinct cs

send_all_other :
    (cs : List ℕ) (line : Text) (buffers : ℕ → List Text) (c : ℕ)
    → any (λ d. d == c) cs ≡ false
    → send_all cs line buffers c ≡ buffers c
send_all_other [] line buffers c h = refl
send_all_other (d ∷ cs) line buffers c h =
    let (p, q) = ||-false (d == c) _ h in
    let ne : (c == d) ≡ false = ground arith in send_all_other cs line _ c q ∙ rw ne refl

send_all_own :
    (cs : List ℕ) (line : Text) (buffers : ℕ → List Text) (c : ℕ)
    → AreDistinct cs
    → any (λ d. d == c) cs ≡ true
    → send_all cs line buffers c ≡ try_send_log_line (buffers c) line
send_all_own [] line buffers c distinct h = cc
send_all_own (d ∷ cs) line buffers c (fresh, distinct) h = elim (Bool-cases (d == c)) [
  | inl e ↦
      let same : d ≡ c = (==_iff d c).0 e in
      let self : (c == d) ≡ true = (==_iff c d).1 (sym same) in
      send_all_other cs line _ c (subst (λ k. any (λ j. j == k) cs ≡ false) same fresh)
      ∙ rw self (ap (λ k. try_send_log_line (buffers k) line) same)
  | inr e ↦
      let ne : (c == d) ≡ false = ground arith in
      send_all_own cs line _ c distinct (rw e at h) ∙ rw ne refl
]

send_all_nth :
    (cs : List ℕ) (line : Text) (buffers : ℕ → List Text) (c : ℕ)
    → AreDistinct cs
    → send_all cs line buffers c
      ≡ (if any (λ d. d == c) cs then try_send_log_line (buffers c) line else buffers c)
send_all_nth cs line buffers c distinct = elim (Bool-cases (any (λ d. d == c) cs)) [
  | inl e ↦ rw e (send_all_own cs line buffers c distinct e)
  | inr e ↦ rw e (send_all_other cs line buffers c e)
]

take_one :
    (k n : ℕ) (buffer : List Text) (line : Text) (lines : List Text)
    → k ≡ suc n
    → (buffer ++ (line ∷ [])) ++ take n lines ≡ buffer ++ take k (line ∷ lines)
take_one k n buffer line lines e =
    append_assoc_one buffer line (take n lines) ∙ ap (λ m. buffer ++ take m (line ∷ lines)) (sym e)

-- A buffer takes the first lines that fit.
fill_one :
    (buffer : List Text) (line : Text) (lines : List Text)
    → try_send_log_line buffer line
        ++ take (channel_size - length (try_send_log_line buffer line)) lines
      ≡ buffer ++ take (channel_size - length buffer) (line ∷ lines)
unfolding try_send_log_line
fill_one buffer line lines = elim (Bool-cases (ltb (length buffer) channel_size)) [
  | inl e ↦
      let room : channel_size - length buffer ≡ suc (channel_size - length buffer - 1) =
        ground arith in
      let left : channel_size - length buffer
          ≡ suc (channel_size - length (buffer ++ (line ∷ []))) =
        omega (arith, room, length-append buffer (line ∷ [])) in
      rw e (take_one _ _ buffer line lines left)
  | inr e ↦
      let none_left : channel_size - length buffer ≡ 0 = ground arith in rw (e, none_left) refl
]

take_nil : (n : ℕ) → take {A = Text} n [] ≡ []
take_nil zero = refl
take_nil (suc n) = refl

buffers_lem :
    (s : SharedLogStream) (buffers : ℕ → List Text) (lines : List Text) (c : ℕ)
    → AreDistinct s.subscribers
    → (publish_all s buffers lines).1 c ≡ (
        if any (λ d. d == c) s.subscribers
        then buffers c ++ take (channel_size - length (buffers c)) lines
        else buffers c)
unfolding publish
buffers_lem s buffers [] c distinct = elim (Bool-cases (any (λ d. d == c) s.subscribers)) [
  | inl e ↦ rw (e, take_nil, append-nil) refl
  | inr e ↦ rw e refl
]
buffers_lem s buffers (line ∷ lines) c distinct =
    let rest = buffers_lem (publish s buffers line).0 (publish s buffers line).1 lines c distinct in
    let sent = send_all_nth s.subscribers line buffers c distinct in
    elim (Bool-cases (any (λ d. d == c) s.subscribers)) [
      | inl e ↦ rest ∙ rw (sent, e) (fill_one (buffers c) line lines)
      | inr e ↦ rest ∙ rw (sent, e) refl
    ]

-- From a history of at most 500 lines and different channels: behind any lines that are published,
-- and none that is received, the history holds the last 500 of its lines and these, in order; the
-- buffer of a subscriber has got the first of them that fit in its 256 places, in order; and every
-- other buffer is as before.
pub publish_all_lem :
    (s : SharedLogStream) (buffers : ℕ → List Text) (lines : List Text) (c : ℕ)
    → length s.history ≤ log_tail_line_count
    → AreDistinct s.subscribers
    → ((publish_all s buffers lines).0.history
        ≡ last_lines log_tail_line_count (s.history ++ lines))
      × ((publish_all s buffers lines).1 c ≡ (
          if any (λ d. d == c) s.subscribers
          then buffers c ++ take (channel_size - length (buffers c)) lines
          else buffers c))
publish_all_lem s buffers lines c h distinct =
    (history_lem s buffers lines h, buffers_lem s buffers lines c distinct)
