-- ===== src/Screen/Tests.antt =====
-- video.c on a screen whose bytes count up, with the cursor in the last row.
use janus.Base.{◌%◌, ◌≡◌, [], arith}
use janus.Screen.{Screen, kscroll_display}
use janus.Screen.Scroll.{kscroll_display_lem}

abbrev full : Screen
full = record { vidmem = λ p. p % 256; cursor_x = 3; cursor_y = 24; trace = [] }

kscroll_display_lem_example :
    ((kscroll_display full).vidmem 1004 ≡ full.vidmem 1164 % 256)
    × ((kscroll_display full).cursor_y ≡ 23)
kscroll_display_lem_example =
    kscroll_display_lem full 6 22 (omega arith) (omega arith) (omega arith)
