-- ===== src/Commands/Dump.antt =====
-- src/utils/shell_builtin.c: the dump of memory and the serial port.
use janus.Base.{ℕ, zero, suc, ◌+◌, ◌%◌, List, [], ◌∷◌, ◌++◌, ◌==◌, if◌then◌else◌}
use janus.Memory.{Mem}
use janus.Fs.{Fs}
use janus.Commands.{
  Act, Outside, Done, number, first, rest, characters, new_line, wrong_usage, hex_byte, blank, sent,
  received, unset,
}

-- The loop of `dump -x`: the rounds left and `i`.
pub dump_hex : (k i : ℕ) → Mem → (dump_mem : ℕ) → List Act
dump_hex zero i m p = []
dump_hex (suc k) i m p =
    hex_byte (m p)
    ∷ ((if i % 4 == 0 then blank ∷ [] else [])
        ++ ((if i % 32 == 0 then new_line ∷ [] else []) ++ dump_hex k (i + 1) m (p + 1)))

pub cmd_dump : Outside → Fs → (argv : ℕ → List ℕ) → Done
unfolding dump_hex characters
cmd_dump o s argv =
    let c = argv 1 ++ argv 2 in
    let d = rest c in
    let mem = number o.junk (rest d) in
    (
      s,
      (if first c == b'-'
          then if first d == b'x'
            then new_line ∷ (dump_hex 512 1 o.mem mem ++ new_line ∷ [])
            else if first d == b'c'
            then new_line ∷ (characters 512 o.mem mem ++ new_line ∷ [])
            else wrong_usage ∷ []
          else []),
      unset,
    )

pub cmd_send : Fs → Done
cmd_send s = (s, sent ∷ [], unset)

pub cmd_receive : Fs → Done
cmd_receive s = (s, received ∷ [], unset)
