-- ===== src/Paging/Fill.antt =====
-- The loops of `page_init`, word by word.
use janus.Base.{ℕ, zero, suc, ◌+◌, ◌*◌, ◌%◌, ◌^◌, ◌≤◌, ◌<◌, ◌≡◌, ◌≢◌, refl, ◌∙◌, ap, arith}
use janus.Paging.{Words, put, fill, pad, pg_offset}

put_self : (m : Words) (p v : ℕ) → put m p v p ≡ v
unfolding put
put_self m p v = ground arith

put_ne : (m : Words) (p v a : ℕ) → a ≢ p → put m p v a ≡ m a
unfolding put
put_ne m p v a h = ground arith

pub fill_end : (n : ℕ) (m : Words) (p e : ℕ) → (fill n m p e).1 ≡ p + 4 * n
unfolding fill
fill_end zero m p e = omega arith
fill_end (suc n) m p e = fill_end n (put m p e) (p + 4) ((e + pg_offset) % 2 ^ 32) ∙ omega arith

pub fill_below : (n : ℕ) (m : Words) (p e a : ℕ) → a < p → (fill n m p e).0 a ≡ m a
unfolding fill
fill_below zero m p e a h = refl
fill_below (suc n) m p e a h =
    fill_below n (put m p e) (p + 4) ((e + pg_offset) % 2 ^ 32) a (omega arith)
    ∙ put_ne m p e a (omega arith)

pub fill_above : (n : ℕ) (m : Words) (p e a : ℕ) → p + 4 * n ≤ a → (fill n m p e).0 a ≡ m a
unfolding fill
fill_above zero m p e a h = refl
fill_above (suc n) m p e a h =
    fill_above n (put m p e) (p + 4) ((e + pg_offset) % 2 ^ 32) a (omega arith)
    ∙ put_ne m p e a (omega arith)

-- Entry `k` of a run that begins with `e`.
pub fill_at :
    (n : ℕ) (m : Words) (p e k : ℕ)
    → k < n
    → e < 2 ^ 32
    → (fill n m p e).0 (p + 4 * k) ≡ (e + 4096 * k) % 2 ^ 32
unfolding fill
fill_at zero m p e k h small = absurd (omega arith)
fill_at (suc n) m p e zero h small =
    ap (fill n (put m p e) (p + 4) ((e + pg_offset) % 2 ^ 32)).0 (omega arith)
    ∙ fill_below n (put m p e) (p + 4) ((e + pg_offset) % 2 ^ 32) p (omega arith)
    ∙ put_self m p e
    ∙ omega arith
fill_at (suc n) m p e (suc k) h small =
    ap (fill n (put m p e) (p + 4) ((e + pg_offset) % 2 ^ 32)).0 (omega arith)
    ∙ fill_at n (put m p e) (p + 4) ((e + pg_offset) % 2 ^ 32) k (omega arith) (omega arith)
    ∙ omega arith

-- `pad` zeroes the words up to the next page boundary, if that is `n` words ahead.
pub pad_end :
    (n fuel : ℕ) (m : Words) (p q : ℕ)
    → n < fuel
    → q % 4096 ≡ 0
    → p + 4 * n ≡ q
    → n < 1024
    → (pad fuel m p).1 ≡ q
unfolding pad
pad_end n zero m p q h b e s = absurd (omega arith)
pad_end zero (suc fuel) m p q h b e s = ground arith
pad_end (suc n) (suc fuel) m p q h b e s =
    let off : p % 4096 ≢ 0 = omega arith in
    ground (arith, pad_end n fuel (put m p 0) (p + 4) q (omega arith) b (omega arith) (omega arith))

pub pad_below : (fuel : ℕ) (m : Words) (p a : ℕ) → a < p → (pad fuel m p).0 a ≡ m a
unfolding pad
pad_below zero m p a h = refl
pad_below (suc fuel) m p a h =
    ground (arith, pad_below fuel (put m p 0) (p + 4) a (omega arith), put_ne m p 0 a (omega arith))

pub pad_at :
    (n fuel : ℕ) (m : Words) (p q k : ℕ)
    → n < fuel
    → q % 4096 ≡ 0
    → p + 4 * n ≡ q
    → n < 1024
    → k < n
    → (pad fuel m p).0 (p + 4 * k) ≡ 0
unfolding pad
pad_at n zero m p q k h b e s l = absurd (omega arith)
pad_at zero (suc fuel) m p q k h b e s l = absurd (omega arith)
pad_at (suc n) (suc fuel) m p q zero h b e s l =
    let off : p % 4096 ≢ 0 = omega arith in
    let here : p + 4 * 0 ≡ p = omega arith in
    ground (arith, here, pad_below fuel (put m p 0) (p + 4) p (omega arith), put_self m p 0)
pad_at (suc n) (suc fuel) m p q (suc k) h b e s l =
    let off : p % 4096 ≢ 0 = omega arith in
    let here : p + 4 * suc k ≡ p + 4 + 4 * k = omega arith in
    ground (
      arith,
      here,
      pad_at n fuel (put m p 0) (p + 4) q k (omega arith) b (omega arith) (omega arith)
          (omega arith),
    )
