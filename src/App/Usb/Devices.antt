-- ===== src/App/Usb/Devices.antt =====
-- The list of devices in `eg_usbto322_init` of app/sys/eg_usbto322.c. A name is the list of its
-- characters, without the null that ends it.
use pc.Base.{
  append_nil, append_assoc, ℕ, zero, suc, ◌≤◌, ◌<◌, ◌≡◌, refl, ap, ◌∙◌, arith, if◌then◌else◌, ltb,
  ◌==◌, mem, false, Option, some, none, List, [], ◌∷◌, ◌++◌, length,
}

-- The loop that splits the bytes before the last one of the reader library's list at its nulls: `room` names
-- still fit, and `name` is what stands before. `none`: a name is copied past the 32 bytes of its place.
unfoldable pub split_names : ℕ → List ℕ → List ℕ → Option (List (List ℕ))
split_names room name [] = some []
split_names zero name (b ∷ bs) = some []
split_names (suc room) name (b ∷ bs) =
    let rest = split_names room [] bs in
    let longer = split_names (suc room) (name ++ b ∷ []) bs in
    if b == 0
    then if ltb (length name) 32
      then elim rest [ some names ↦ some (name ∷ names) | none ↦ none ]
      else none
    else longer

-- Names, each with its null.
abbrev pub joined : List (List ℕ) → List ℕ
joined [] = []
joined (name ∷ names) = name ++ 0 ∷ joined names

-- Names without a null that fit.
abbrev pub AllFit : List (List ℕ) → Type 0
AllFit [] = Unit {0}
AllFit (name ∷ names) = (mem 0 name ≡ false) × ((length name < 32) × AllFit names)

-- One name is read to its end.
split_names-append :
    (room : ℕ) (done name rest : List ℕ)
    → mem 0 name ≡ false
    → length (done ++ name) < 32
    → split_names (suc room) done (name ++ 0 ∷ rest)
      ≡ elim (split_names room [] rest) [ some names ↦ some ((done ++ name) ∷ names) | none ↦ none ]
unfolding split_names
split_names-append room done [] rest h lt = ground (arith, append_nil done)
split_names-append room done (b ∷ name) rest h lt =
    ground (arith, append_assoc done b name, split_names-append room (done ++ b ∷ []) name rest)

-- Names without a null, of less than 32 characters and no more of them than there is room for, that are
-- joined with a null after each are split into the same names.
pub split_names-joined :
    (room : ℕ) (names : List (List ℕ))
    → length names ≤ room
    → AllFit names
    → split_names room [] (joined names) ≡ some names
split_names-joined room [] h f = unfold split_names in refl
split_names-joined zero (name ∷ names) h f = absurd (omega arith)
split_names-joined (suc room) (name ∷ names) h f =
    split_names-append room [] name (joined names) f.0 f.1.0
    ∙ ap (λ (o : Option (List (List ℕ))). elim o [ some ns ↦ some (name ∷ ns) | none ↦ none ])
        (split_names-joined room names (omega arith) f.1.1)
