-- ===== src/Dashboard/Chart.antt =====
-- ThroughputChart.jsx of packages/dashboard/src/components. A sample is a time and
-- a throughput.
use distributed_job_queue.Base.{
  ℕ, zero, suc, ◌+◌, ◌-◌, ◌≤◌, ◌≡◌, refl, sym, ◌∙◌, ap, Option, List, [], ◌∷◌, ◌++◌, length, drop,
  arith, length-append, length-drop,
}
use mathlib.Core.Option.{get_or}
use native.Mathlib.Nat.{suc-add}
use mathlib.Core.List.{append_assoc, append-nil}

pub record Sample : Type 0 where
  pub time : ℕ
  pub throughput : ℕ

-- `xs.slice(-30)`.
unfoldable pub last_30 : List Sample → List Sample
last_30 xs = drop (length xs - 30) xs

-- The effect on [stats]; `none` is a broadcast without the field.
unfoldable pub add_sample : List Sample → (time : ℕ) (throughput : Option ℕ) → List Sample
unfolding last_30
add_sample history time throughput =
    last_30 (history ++ record { time = time; throughput = get_or throughput 0 } ∷ [])

-- The history after a list of broadcasts.
unfoldable pub history_after : List Sample → List (ℕ × Option ℕ) → List Sample
unfolding add_sample
history_after history [] = history
history_after history ((time, throughput) ∷ bs) =
    history_after (add_sample history time throughput) bs

abbrev pub samples : List (ℕ × Option ℕ) → List Sample
samples [] = []
samples ((time, throughput) ∷ bs) =
    record { time = time; throughput = get_or throughput 0 } ∷ samples bs

drop-nil : (n : ℕ) → drop {A = Sample} n [] ≡ []
drop-nil zero = refl
drop-nil (suc n) = refl

drop-drop : (a b : ℕ) (xs : List Sample) → drop a (drop b xs) ≡ drop (b + a) xs
drop-drop a zero xs = ap (λ n. drop n xs) (omega arith)
drop-drop a (suc b) [] = drop-nil a ∙ sym (drop-nil (suc b + a))
drop-drop a (suc b) (x ∷ xs) = rw suc-add (drop-drop a b xs)

drop-append : (n : ℕ) (xs ys : List Sample) → n ≤ length xs → drop n xs ++ ys ≡ drop n (xs ++ ys)
drop-append zero xs ys h = refl
drop-append (suc n) [] ys h = absurd (omega arith)
drop-append (suc n) (x ∷ xs) ys h = drop-append n xs ys (omega arith)

-- What the window has lost is not missed.
last_30-append : (xs ys : List Sample) → last_30 (last_30 xs ++ ys) ≡ last_30 (xs ++ ys)
unfolding last_30
last_30-append xs ys =
    let lost = length xs - 30 in
    let same : drop lost xs ++ ys ≡ drop lost (xs ++ ys) = drop-append lost xs ys (omega arith) in
    ap (λ zs. drop (length zs - 30) zs) same
    ∙ drop-drop (length (drop lost (xs ++ ys)) - 30) lost (xs ++ ys)
    ∙ ap (λ n. drop n (xs ++ ys))
        (omega (arith, length-drop {0} lost (xs ++ ys), length-append {0} xs ys))

history-last_30 :
    (before : List Sample) (bs : List (ℕ × Option ℕ))
    → history_after (last_30 before) bs ≡ last_30 (before ++ samples bs)
unfolding history_after
history-last_30 before [] = ap last_30 (sym (append-nil before))
history-last_30 before ((time, throughput) ∷ bs) =
    let sample : Sample = record { time = time; throughput = get_or throughput 0 } in
    ap (λ xs. history_after xs bs) (last_30-append before (sample ∷ []))
    ∙ history-last_30 (before ++ sample ∷ []) bs
    ∙ ap last_30 (append_assoc before (sample ∷ []) (samples bs))

-- After any broadcasts the chart shows exactly the last thirty samples, in the order of the
-- broadcasts, a missing throughput as 0.
pub history_after-last_30 : (bs : List (ℕ × Option ℕ)) → history_after [] bs ≡ last_30 (samples bs)
unfolding last_30
history_after-last_30 bs = history-last_30 [] bs
