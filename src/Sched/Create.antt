-- ===== src/Sched/Create.antt =====
-- `make_task` and `start_sys` of sched.c: the new task goes last, and the index past the array.
use janus.Base.{
  ℕ, suc, ◌+◌, ◌-◌, ◌%◌, ◌<◌, ◌≡◌, ◌∙◌, ap, ap₂, none, some, List, [], ◌∷◌, ◌++◌, arith, set,
  length-set,
}
use janus.Sched.{Sched, Task, que_size, make_task, new_task, first_frame, front_to_end}
use janus.Sched.Queue.{
  IsValid, at, get_elem?-at, at-set_self, contents, count, slots, slots-set, slots_snoc,
}

-- The state of `make_task` behind its last statement.
made : Sched → (stack pri : ℕ) → List ℕ → (entry : ℕ) → Sched
made s stack pri name entry = record s {
  rrq = set s.rrq s.end (new_task pri name stack (at s.rrq s.end));
  end = s.end + 1;
  frames = (stack, first_frame stack entry) ∷ s.frames;
}

make_task-made :
    (s : Sched) (stack_mem pri : ℕ) (name : List ℕ) (entry : ℕ)
    → IsValid s
    → make_task s stack_mem pri name entry ≡ some (made s (stack_mem + 196) pri name entry)
unfolding make_task made
make_task-made s stack_mem pri name entry v =
    rw (get_elem?-at s.rrq s.end (omega arith)) (ground arith)

-- From a valid state with room in the ring, and not at the last index of the array, `make_task`
-- keeps the state valid and puts the new task behind all others.
pub make_task-append :
    (s : Sched) (stack_mem pri : ℕ) (name : List ℕ) (entry : ℕ)
    → IsValid s
    → s.end + 1 < que_size
    → count s + 1 < que_size
    → (s' : Sched) × (make_task s stack_mem pri name entry ≡ some s')
      × IsValid s'
      × (contents s' ≡ contents s ++ new_task pri name (stack_mem + 196) (at s.rrq s.end) ∷ [])
unfolding made
make_task-append s stack_mem pri name entry v room space = (
  made s (stack_mem + 196) pri name entry,
  make_task-made s stack_mem pri name entry v,
  record { front_in = v.front_in; end_in = room; size = length-set s.rrq s.end t ∙ v.size },
  ap (slots (set s.rrq s.end t) s.front) size
      ∙ slots_snoc (set s.rrq s.end t) s.front (count s) v.front_in
      ∙ ap₂ (λ ts u. ts ++ u ∷ [])
          (slots-set s.rrq s.end t s.front (count s) (λ k kn. omega arith) v.front_in)
          (ap (at (set s.rrq s.end t)) last ∙ at-set_self s.rrq s.end t (omega arith)),
)
  where
    t : Task
    t = new_task pri name (stack_mem + 196) (at s.rrq s.end)

    size : (s.end + 1 + que_size - s.front) % que_size ≡ suc (count s)
    size = omega arith

    last : (s.front + count s) % que_size ≡ s.end
    last = omega arith

-- `make_task` does not wrap `end`: called at the last index of the array it leaves `end` past the
-- array, and the next `front_to_end` indexes out of bounds.
make_task-past_end :
    (s : Sched) (stack_mem pri : ℕ) (name : List ℕ) (entry : ℕ)
    → IsValid s
    → s.end + 1 ≡ que_size
    → (s' : Sched) × (make_task s stack_mem pri name entry ≡ some s')
      × (s'.end ≡ que_size)
      × (front_to_end s' ≡ none)
unfolding made front_to_end
make_task-past_end s stack_mem pri name entry v e = (
  made s (stack_mem + 196) pri name entry,
  make_task-made s stack_mem pri name entry v,
  e,
  ground (
    arith,
    get_elem?-at (set s.rrq s.end t) s.front (omega (arith, length-set s.rrq s.end t)),
    length-set s.rrq s.end t,
  ),
)
  where
    t : Task
    t = new_task pri name (stack_mem + 196) (at s.rrq s.end)
