-- ===== src/Console/Tests.antt =====
-- `kprintf` on a screen with the cursor at the end of the last row.
use janus.Base.{refl, [], ◌∷◌, arith}
use janus.Console.{Writer, put_string}
use janus.Console.Cursor.{InStep, put_string-InStep}

abbrev corner : Writer
corner = record {
  screen = record { vidmem = λ p. 0; cursor_x = 79; cursor_y = 24; trace = [] };
  i = 3998;
}

-- "ab", a newline and "c".
put_string-InStep_example : InStep (put_string corner (97 ∷ 98 ∷ 10 ∷ 99 ∷ []))
put_string-InStep_example =
    put_string-InStep (97 ∷ 98 ∷ 10 ∷ 99 ∷ []) corner (refl, omega arith, omega arith)
