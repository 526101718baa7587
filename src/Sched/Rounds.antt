-- ===== src/Sched/Rounds.antt =====
-- `schedule` of sched.c, once and in a full round.
use janus.Base.{
  ℕ, zero, suc, ◌-◌, ◌≡◌, ◌≢◌, refl, sym, ◌∙◌, ap, Option, some, List, [], ◌∷◌, ◌++◌, arith, length,
  set, length-set, map, append_assoc, append-nil, ◌>>=◌, map-append,
}
use native.Mathlib.Decide.{ℕ_discrete}
use janus.Io.{print}
use janus.Sched.{
  Sched, Task, front_to_end, cur_task_pri, cur_task_time_equ, get_pri_time, schedule, schedule_text,
}
use janus.Sched.Queue.{
  IsValid, empty-contents, at, get_elem?-at, contents, count, slots, rotate, front_to_end-rotate,
  head-contents, count_pos,
}

-- A task with the full time of its priority.
abbrev pub refresh : Task → Task
refresh t = record t { time = get_pri_time t.priority }

-- The state of `schedule` before it rotates: the running task has its time again.
refreshed : Sched → Sched
refreshed s = record s {
  trace = s.trace ++ print schedule_text ∷ [];
  rrq = set s.rrq s.front (refresh (at s.rrq s.front));
}

refreshed-IsValid : (s : Sched) → IsValid s → IsValid (refreshed s)
unfolding refreshed
refreshed-IsValid s v = ground (arith, length-set s.rrq s.front (refresh (at s.rrq s.front)))

-- What `schedule` does to a queue that is not empty.
abbrev pub turn : List Task → List Task
turn [] = []
turn (t ∷ ts) = ts ++ refresh t ∷ []

module _ (s : Sched) (v : IsValid s) (ne : s.end ≢ s.front) where
  pri_lem : cur_task_pri s ≡ some (at s.rrq s.front).priority
  unfolding cur_task_pri
  pri_lem = ground (arith, get_elem?-at s.rrq s.front (omega arith))

  equ_lem :
      (time : ℕ)
      → cur_task_time_equ s time
        ≡ some (record s { rrq = set s.rrq s.front (record (at s.rrq s.front) { time = time }) })
  unfolding cur_task_time_equ
  equ_lem time = ground (arith, get_elem?-at s.rrq s.front (omega arith))

abbrev announced : Sched → Sched
announced s = record s { trace = s.trace ++ print schedule_text ∷ [] }

schedule-refreshed :
    (s : Sched) (regs : ℕ) (s' : Sched)
    → IsValid s
    → s.end ≢ s.front
    → front_to_end (refreshed s) ≡ some s'
    → IsValid s'
    → schedule s regs ≡ some ((at s'.rrq s'.front).stack, s')
unfolding schedule refreshed
schedule-refreshed s regs s' v ne e w = rw (
  pri_lem (announced s) (record { front_in = v.front_in; end_in = v.end_in; size = v.size }) ne,
  equ_lem (announced s) (record { front_in = v.front_in; end_in = v.end_in; size = v.size }) ne
      (get_pri_time (at s.rrq s.front).priority),
  e,
  get_elem?-at s'.rrq s'.front (omega arith),
)

contents-refreshed :
    (s : Sched) → IsValid s → s.end ≢ s.front → rotate (contents (refreshed s)) ≡ turn (contents s)
unfolding refreshed
contents-refreshed s v ne =
    ap rotate (head-contents s (refresh (at s.rrq s.front)) (count s - 1) v (count_pos s v ne))
    ∙ sym (ap (λ n. turn (slots s.rrq s.front n)) (count_pos s v ne))

-- The stack of the first task of a queue, that of a blank task if there is none.
abbrev pub first_stack : List Task → ℕ
first_stack [] = 0
first_stack (t ∷ ts) = t.stack

record Scheduled (s : Sched) (regs : ℕ) : Type 0 where
  after : Sched
  valid : IsValid after
  queue : contents after ≡ turn (contents s)
  runs : schedule s regs ≡ some ((at after.rrq after.front).stack, after)

schedule-Scheduled : (s : Sched) (regs : ℕ) → IsValid s → s.end ≢ s.front → Scheduled s regs
schedule-Scheduled s regs v ne =
    let (s', e, w, q) = front_to_end-rotate (refreshed s) (refreshed-IsValid s v) in
    record {
      after = s';
      valid = w;
      queue = q ∙ contents-refreshed s v ne;
      runs = schedule-refreshed s regs s' v ne e w;
    }

first_stack-contents :
    (s : Sched) → IsValid s → contents s ≢ [] → first_stack (contents s) ≡ (at s.rrq s.front).stack
first_stack-contents s v ne = elim (ℕ_discrete s.end s.front) [
  | yes e ↦ absurd (ne (empty-contents s v e))
  | no d ↦ ap (λ n. first_stack (slots s.rrq s.front n)) (count_pos s v d)
]

snoc-ne-nil : (t : Task) (ts : List Task) → ts ++ t ∷ [] ≢ []
snoc-ne-nil t [] e = cc
snoc-ne-nil t (u ∷ ts) e = cc

turn-ne-nil : (ts : List Task) → ts ≢ [] → turn ts ≢ []
turn-ne-nil [] ne = ne
turn-ne-nil (t ∷ ts) ne = snoc-ne-nil (refresh t) ts

-- From a valid state whose queue is not empty, `schedule` returns: the task that ran goes behind
-- all others with the time of its priority, the state stays valid, and the result is the stack of
-- the task that is now first.
pub schedule_lem :
    (s : Sched) (regs : ℕ)
    → IsValid s
    → contents s ≢ []
    → (s' : Sched) × (schedule s regs ≡ some (first_stack (turn (contents s)), s'))
      × IsValid s'
      × (contents s' ≡ turn (contents s))
schedule_lem s regs v ne =
    let r = schedule-Scheduled s regs v (λ e. ne (empty-contents s v e)) in
    (r.after, r.runs ∙ ap (λ p. some (p, r.after)) (stack r), r.valid, r.queue)
  where
    stack :
        (r : Scheduled s regs)
        → (at r.after.rrq r.after.front).stack ≡ first_stack (turn (contents s))
    stack r =
        sym (
          first_stack-contents r.after r.valid (λ e. turn-ne-nil (contents s) ne (sym r.queue ∙ e)))
        ∙ ap first_stack r.queue

-- `n` calls, with the stacks that they return.
pub schedules : ℕ → Sched → (regs : ℕ) → Option (List ℕ × Sched)
schedules zero s regs = some ([], s)
schedules (suc n) s regs = do
  (p, s1) ← schedule s regs
  (ps, s2) ← schedules n s1 regs
  some (p ∷ ps, s2)

abbrev stacks : List Task → List ℕ
stacks = map (λ (t : Task). t.stack)

-- The stacks that the calls return while the tasks `ts` go, one by one, behind `us`.
seen : List Task → List Task → List ℕ
seen [] us = []
seen (t ∷ ts) us = first_stack (ts ++ (us ++ refresh t ∷ [])) ∷ seen ts (us ++ refresh t ∷ [])

schedules-seen :
    (ts us : List Task) (s : Sched) (regs : ℕ)
    → IsValid s
    → contents s ≡ ts ++ us
    → (s' : Sched) × (schedules (length ts) s regs ≡ some (seen ts us, s'))
      × IsValid s'
      × (contents s' ≡ us ++ map refresh ts)
unfolding schedules seen
schedules-seen [] us s regs v e = (s, refl, v, e ∙ sym (append-nil us))
schedules-seen (t ∷ ts) us s regs v e =
    let (s1, run, v1, q1) = schedule_lem s regs v (λ n. cc) in
    let here : turn (contents s) ≡ ts ++ (us ++ refresh t ∷ []) =
      ap turn e ∙ append_assoc ts us (refresh t ∷ []) in
    let (s2, runs, v2, q2) = schedules-seen ts (us ++ refresh t ∷ []) s1 regs v1 (q1 ∙ here) in
    (s2, rw (run, runs, here) refl, v2, q2 ∙ append_assoc us (refresh t ∷ []) (map refresh ts))

seen-cons :
    (t : Task) (ts : List Task) (u : Task) (us : List Task)
    → seen (t ∷ ts) (u ∷ us) ≡ stacks (ts ++ u ∷ [])
unfolding seen
seen-cons t [] u us = refl
seen-cons t (t' ∷ ts) u us = ap (λ ps. t'.stack ∷ ps) (seen-cons t' ts u (us ++ refresh t ∷ []))

seen-rotate : (ts : List Task) → seen ts [] ≡ stacks (rotate ts)
unfolding seen
seen-rotate [] = refl
seen-rotate (t ∷ []) = refl
seen-rotate (t ∷ t' ∷ ts) =
    ap (λ ps. t'.stack ∷ ps)
      (seen-cons t' ts (refresh t) []
        ∙ map-append (λ (t : Task). t.stack) ts (refresh t ∷ [])
        ∙ sym (map-append (λ (t : Task). t.stack) ts (t ∷ [])))

-- From a valid state, with front and end below 128 and an array of 128 slots, as many calls of
-- `schedule` as tasks wait give each task the processor once, in the order of the queue and
-- beginning with the second, and leave the queue as it was, each task with the time of its
-- priority.
pub schedules_round :
    (s : Sched) (regs : ℕ)
    → IsValid s
    → (s' : Sched) × (schedules (length (contents s)) s regs
        ≡ some (stacks (rotate (contents s)), s'))
      × IsValid s'
      × (contents s' ≡ map refresh (contents s))
schedules_round s regs v =
    let (s', run, v', q) =
      schedules-seen (contents s) [] s regs v (sym (append-nil (contents s))) in
    (s', run ∙ ap (λ ps. some (ps, s')) (seen-rotate (contents s)), v', q)
