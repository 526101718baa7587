-- ===== src/Paging/Tests.antt =====
-- pageinit.c: what its tables map of two addresses.
use janus.Base.{◌≡◌, some, arith}
use janus.Paging.{Words, page_init}
use janus.Paging.Mapped.{walk, page_init_identity}

abbrev blank : Words
blank = λ _. 0

page_init_identity_example : walk (page_init blank) 0x123456 ≡ some 0x123456
page_init_identity_example = page_init_identity blank 0x123456 (omega arith)
