-- ===== src/Sched/Queue.antt =====
-- The ring `rrq` as a queue of tasks, and `front_to_end` as a rotation of it.
use janus.Base.{
  ℕ, zero, suc, ◌+◌, ◌-◌, ◌%◌, ◌<◌, ◌≡◌, ◌≢◌, refl, sym, ◌∙◌, ap, ap₂, some, List, [], ◌∷◌, ◌++◌,
  arith, length, get_or, get_elem?, set, length-set,
}
use native.Mathlib.Decide.{ℕ_discrete}
use janus.Sched.{Sched, Task, blank_task, que_size, wrap, front_to_end}

-- `front` and `end` index the array.
pub record IsValid (s : Sched) : Type 0 where
  pub front_in : s.front < que_size
  pub end_in : s.end < que_size
  pub size : length s.rrq ≡ que_size

abbrev pub at : List Task → ℕ → Task
at buf i = get_or buf i blank_task

pub get_elem?-at : (buf : List Task) (i : ℕ) → i < length buf → get_elem? buf i ≡ some (at buf i)
get_elem?-at [] i h = absurd (omega arith)
get_elem?-at (x ∷ xs) zero h = refl
get_elem?-at (x ∷ xs) (suc i) h = get_elem?-at xs i (omega arith)

pub at-set_self : (buf : List Task) (i : ℕ) (t : Task) → i < length buf → at (set buf i t) i ≡ t
at-set_self [] i t h = absurd (omega arith)
at-set_self (x ∷ xs) zero t h = refl
at-set_self (x ∷ xs) (suc i) t h = at-set_self xs i t (omega arith)

pub at-set_ne : (buf : List Task) (i j : ℕ) (t : Task) → i ≢ j → at (set buf i t) j ≡ at buf j
at-set_ne [] i j t h = refl
at-set_ne (x ∷ xs) zero zero t h = absurd (h refl)
at-set_ne (x ∷ xs) zero (suc j) t h = refl
at-set_ne (x ∷ xs) (suc i) zero t h = refl
at-set_ne (x ∷ xs) (suc i) (suc j) t h = at-set_ne xs i j t (λ e. h (ap suc e))

-- The `n` tasks from index `h` on, going round at the end of the array.
abbrev pub slots : List Task → (h n : ℕ) → List Task
slots buf h zero = []
slots buf h (suc n) = at buf h ∷ slots buf ((h + 1) % que_size) n

-- How many tasks wait, and which, first the running one.
abbrev pub count : Sched → ℕ
count s = (s.end + que_size - s.front) % que_size

abbrev pub contents : Sched → List Task
contents s = slots s.rrq s.front (count s)

pub slots_snoc :
    (buf : List Task) (h n : ℕ)
    → h < que_size
    → slots buf h (suc n) ≡ slots buf h n ++ at buf ((h + n) % que_size) ∷ []
slots_snoc buf h zero lt = ap (λ k. at buf k ∷ []) (omega arith)
slots_snoc buf h (suc n) lt =
    ap (λ ts. at buf h ∷ ts)
      (slots_snoc buf ((h + 1) % que_size) n (omega arith)
        ∙ ap (λ k. slots buf ((h + 1) % que_size) n ++ at buf k ∷ []) (omega arith))

-- A write outside the window.
pub slots-set :
    (buf : List Task) (i : ℕ) (t : Task) (h n : ℕ)
    → ((k : ℕ) → k < n → (h + k) % que_size ≢ i)
    → h < que_size
    → slots (set buf i t) h n ≡ slots buf h n
slots-set buf i t h zero away lt = refl
slots-set buf i t h (suc n) away lt =
    ap₂ ◌∷◌ (at-set_ne buf i h t (λ e. away 0 (omega arith) (omega arith))) (
      slots-set buf i t ((h + 1) % que_size) n (λ k kn e. away (suc k) (omega arith) (omega arith))
        (omega arith))

abbrev pub rotate : List Task → List Task
rotate [] = []
rotate (t ∷ ts) = ts ++ t ∷ []

count-slots : (s : Sched) (n : ℕ) → count s ≡ suc n → contents s ≡ slots s.rrq s.front (suc n)
count-slots s n e = ap (slots s.rrq s.front) e

-- One rotation, on a queue that is not empty.
pub moved : Sched → Sched
moved s = record s {
  rrq = set s.rrq s.end (at s.rrq s.front);
  end = wrap (s.end + 1);
  front = wrap (s.front + 1);
}

moved-IsValid : (s : Sched) → IsValid s → IsValid (moved s)
unfolding moved
moved-IsValid s v = ground (arith, length-set s.rrq s.end (at s.rrq s.front))

moved-contents :
    (s : Sched) (n : ℕ)
    → IsValid s
    → count s ≡ suc n
    → contents (moved s) ≡ slots s.rrq ((s.front + 1) % que_size) n ++ at s.rrq s.front ∷ []
unfolding moved
moved-contents s n v e =
    ap₂ (slots buf) front' size
    ∙ slots_snoc buf ((s.front + 1) % que_size) n (omega arith)
    ∙ ap₂ (λ ts t. ts ++ t ∷ [])
        (slots-set s.rrq s.end (at s.rrq s.front) ((s.front + 1) % que_size) n (λ k kn. omega arith)
          (omega arith))
        (ap (at buf) last ∙ at-set_self s.rrq s.end (at s.rrq s.front) (omega arith))
  where
    buf : List Task
    buf = set s.rrq s.end (at s.rrq s.front)

    front' : wrap (s.front + 1) ≡ (s.front + 1) % que_size
    front' = ground arith

    size : (wrap (s.end + 1) + que_size - wrap (s.front + 1)) % que_size ≡ suc n
    size = ground arith

    last : ((s.front + 1) % que_size + n) % que_size ≡ s.end
    last = omega arith

pub empty-front_to_end : (s : Sched) → s.end ≡ s.front → front_to_end s ≡ some s
unfolding front_to_end
empty-front_to_end s e = ground arith

pub moved-front_to_end : (s : Sched) → IsValid s → s.end ≢ s.front → front_to_end s ≡ some (moved s)
unfolding front_to_end moved
moved-front_to_end s v ne = ground (arith, get_elem?-at s.rrq s.front (omega arith))

pub count_pos : (s : Sched) → IsValid s → s.end ≢ s.front → count s ≡ suc (count s - 1)
count_pos s v ne = omega arith

pub empty-contents : (s : Sched) → IsValid s → s.end ≡ s.front → contents s ≡ []
empty-contents s v e = let z : count s ≡ 0 = omega arith in ap (slots s.rrq s.front) z

-- From a valid state `front_to_end` stays in the array, keeps the state valid, and rotates the
-- queue: the running task goes behind all others, which keep their order.
pub front_to_end-rotate :
    (s : Sched)
    → IsValid s
    → (s' : Sched) × (front_to_end s ≡ some s') × IsValid s' × (contents s' ≡ rotate (contents s))
front_to_end-rotate s v = elim (ℕ_discrete s.end s.front) [
  | yes e ↦
      (s, empty-front_to_end s e, v, empty-contents s v e ∙ sym (ap rotate (empty-contents s v e)))
  | no ne ↦ (
    moved s,
    moved-front_to_end s v ne,
    moved-IsValid s v,
    moved-contents s (count s - 1) v (count_pos s v ne)
        ∙ sym (ap rotate (count-slots s (count s - 1) (count_pos s v ne))),
  )
]

-- A new value for the running task leaves the rest of the queue.
pub head-contents :
    (s : Sched) (t : Task) (n : ℕ)
    → IsValid s
    → count s ≡ suc n
    → slots (set s.rrq s.front t) s.front (count s) ≡ t ∷ slots s.rrq ((s.front + 1) % que_size) n
head-contents s t n v e =
    ap (slots (set s.rrq s.front t) s.front) e
    ∙ ap₂ ◌∷◌ (at-set_self s.rrq s.front t (omega arith))
        (slots-set s.rrq s.front t ((s.front + 1) % que_size) n (λ k kn. omega arith) (omega arith))
