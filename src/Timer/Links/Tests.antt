-- ===== src/Timer/Links/Tests.antt =====
-- Lists at work: two lists at the addresses 100 and 200, and the nodes 1, 2 and 3.
use pc.Base.{refl, [], ◌∷◌}
use pc.Base.{ℕ, ◌==◌, if◌then◌else◌}
use pc.Base.Int.{pos}
use pc.Timer.Timespec.{Timespec}
use pc.Timer.Links.{Links, list_init, list_append}
use pc.Timer.Links.Ring.{Ring, list_init-Ring}
use pc.Timer.Links.Append.{list_append-Ring}

abbrev garbage : Links
garbage = record { next = λ _. 0; prev = λ _. 0 }

abbrev two : Links
two = list_append (list_append (list_init (list_init garbage 200) 100) 100 1) 100 2

two-Ring : Ring two 100 (1 ∷ 2 ∷ [])
two-Ring =
    list_append-Ring _ 100 2 (1 ∷ [])
      (list_append-Ring _ 100 1 [] (list_init-Ring (list_init garbage 200) 100) refl) refl

-- Node 2 is due at 4 seconds, the others at 3.
abbrev due : ℕ → Timespec
due n = record { sec = if n == 2 then pos 4 else pos 3; nsec = pos 0 }
