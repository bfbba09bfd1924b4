-- ===== src/Backoff/Bounds.antt =====
-- How the delays of packages/shared/src/backoff.js grow and where they stop.
use distributed_job_queue.Base.{
  zero, ℕ, suc, ◌*◌, ◌/◌, ◌^◌, ◌≤◌, ◌<◌, ◌≡◌, refl, min, true, false, arith,
}
use native.Mathlib.Nat.{
  two-pow-succ, mul-lt-mul_of_pos_right, div-lt_iff_lt-mul, zero-div, mul-zero, mul_comm,
  mul-le-mul_left, one-le-pow,
}
use distributed_job_queue.Store.Program.{ok}
use distributed_job_queue.Backoff.{pos, compute_backoff_ms, compute_backoff_ceiling_ms}

draw-lt : (u c m : ℕ) → u < m → 0 < c → u * c / m < c
draw-lt u c m h k =
    (div-lt_iff_lt-mul (omega arith)).1
      (rw (mul_comm c m) (mul-lt-mul_of_pos_right {m = u} {n = m} {k = c} h k))

-- A draw never passes what it is drawn from.
pub draw-le : (u c m : ℕ) → u < m → u * c / m ≤ c
draw-le u zero m h = rw (mul-zero u, zero-div m) (omega arith)
draw-le u (suc c) m h = omega (arith, draw-lt u (suc c) m h (omega arith))

double : (base a : ℕ) → base * 2 ^ suc a ≡ 2 * (base * 2 ^ a)
double base a = grind (arith, two-pow-succ a)

-- The delay without jitter.
abbrev pub ceiling : (a base limit : ℕ) → ℕ
ceiling a base limit = min (base * 2 ^ a) limit

0-lt-ceiling : (a base limit : ℕ) → 0 < base → 0 < limit → 0 < ceiling a base limit
0-lt-ceiling a base limit h k =
    let power : 1 ≤ 2 ^ a = one-le-pow a 2 (omega arith) in
    let product : base * 1 ≤ base * 2 ^ a = mul-le-mul_left base power in omega arith

-- For every retry number, base and cap above 0 and every draw of Math.random(), the delay with
-- jitter lies strictly below the delay without, which is the announced ceiling and within the cap.
pub compute_backoff_ms-lt-ceiling :
    (u a base limit : ℕ)
    → u < 2 ^ 53
    → 0 < base
    → 0 < limit
    → (d c : ℕ) × (compute_backoff_ms u (pos a) base limit true ≡ ok d)
      × (compute_backoff_ms u (pos a) base limit false ≡ ok c)
      × (compute_backoff_ceiling_ms (pos a) base limit ≡ ok c)
      × (d < c)
      × (c ≤ limit)
unfolding compute_backoff_ms compute_backoff_ceiling_ms
compute_backoff_ms-lt-ceiling u a base limit h b k =
    let c = ceiling a base limit in
    (
      u * c / 2 ^ 53,
      c,
      refl,
      refl,
      refl,
      draw-lt u c (2 ^ 53) h (0-lt-ceiling a base limit b k),
      omega arith,
    )

-- From one retry to the next the delay without jitter doubles, until it reaches the cap.
pub compute_backoff_ceiling_ms-suc :
    (a base limit c : ℕ)
    → compute_backoff_ceiling_ms (pos a) base limit ≡ ok c
    → compute_backoff_ceiling_ms (pos (suc a)) base limit ≡ ok (min (2 * c) limit)
unfolding compute_backoff_ceiling_ms
compute_backoff_ceiling_ms-suc a base limit c e = ground (arith, double base a)
