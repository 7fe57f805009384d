-- ===== src/App/Config/Tests.antt =====
-- A configuration file of seven readers that are alike.
use pc.Base.{◌≡◌, refl, some, List, [], ◌∷◌, replicate}
use pc.App.Config.{Entry, Stored, placed, written, AllOutside, cfg_reader_rd, cfg_reader_rd-written}

abbrev reader : Entry
reader = record { t0 = 1; t1 = 6; l0 = 5; l1 = 0; b0 = 1; b1 = 2; b2 = 0; b3 = 3; b4 = 4 }

abbrev seven : List Entry
seven = replicate 7 reader

cfg_reader_rd-written_example :
    (s : Stored) × (cfg_reader_rd (some (written seven (9 ∷ 8 ∷ []))) ≡ some s)
    × ((s.entries ≡ placed 0x601 seven)
        × ((s.sys_ctrl ≡ some 9) × ((s.legacy_wg ≡ some 8) × AllOutside s.entries)))
cfg_reader_rd-written_example = cfg_reader_rd-written seven 9 8 [] refl
