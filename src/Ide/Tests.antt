-- ===== src/Ide/Tests.antt =====
-- hd.c on a drive that is busy once and then delivers one sector.
use janus.Base.{
  ℕ, ◌≡◌, refl, some, List, [], ◌∷◌, ◌++◌, if◌then◌else◌, replicate, take, drop, arith,
  length-replicate,
}
use janus.Base.Int.{pos, negsuc}
use janus.Ide.{is_error, command_block, read_sector}
use janus.Ide.Transfer.{read_sector_lem}

abbrev sector : List ℕ
sector = replicate 256 7

read_sector_lem_example :
    read_sector (record { statuses = 0x80 ∷ 0x50 ∷ 0x50 ∷ []; words = sector; trace = [] }) 0 9 1
    ≡ (if is_error 0x50
        then some (
          negsuc 0,
          [],
          record { statuses = []; words = sector; trace = [] ++ command_block 0 9 1 0x20 },
        )
        else some (
          pos 1,
          take 256 sector,
          record { statuses = []; words = drop 256 sector; trace = [] ++ command_block 0 9 1 0x20 },
        ))
read_sector_lem_example =
    read_sector_lem (0x80 ∷ []) 0x50 0x50 [] sector [] 0 9 1 (refl, tt) refl
      (omega (arith, length-replicate {A = ℕ} 256 7))
