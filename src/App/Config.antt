-- ===== src/App/Config.antt =====
-- `cfg_reader_RD` of app/sys/eg_9531.c: the configuration file of the readers. The file is its bytes, and what is
-- stored in `controll_eg` is listed: the index in `reader_cfg` with the bytes that are read there, in order. What
-- `fread` does not read at the end of the file stays as it is.
mod Tests
use pc.Base.{
  ◌∙◌, ℕ, zero, suc, ◌+◌, ◌<◌, ◌≤◌, ◌≡◌, refl, ap, subst, arith, Option, some, none, List, [], ◌∷◌,
  ◌++◌, length, take, drop,
}
use pc.Base.Int.{ℤ, pos}

-- READER1_CFG, and the rounds of the loop up to READER8_CFG
abbrev pub reader1_cfg : ℕ
reader1_cfg = 0x601

abbrev pub rounds : ℕ
rounds = 7

-- The elements of `reader_cfg`
abbrev pub reader_cfg_size : ℕ
reader_cfg_size = 8

-- What is stored, and the commands that are run: `mv` and `rm`.
pub data Command : Type 0 where
  moves_file removes_file : Command

pub record Stored : Type 0 where
  pub entries : List (ℕ × List ℕ)
  pub sys_ctrl : Option ℕ
  pub legacy_wg : Option ℕ
  pub commands : List Command

abbrev pub first : List ℕ → Option ℕ
first [] = none
first (b ∷ bs) = some b

-- The loop, for some rounds from the index `i` on: two numbers of two bytes that are not used, and five bytes.
unfoldable pub read_entries : ℕ → ℕ → List ℕ → List (ℕ × List ℕ) × List ℕ
read_entries zero i file = ([], file)
read_entries (suc n) i file =
    let (later, rest) = read_entries n (suc i) (drop 9 file) in
    ((i, take 5 (drop 4 file)) ∷ later, rest)

-- What the loop has read, and the two bytes that follow.
abbrev pub stored_of : List (ℕ × List ℕ) × List ℕ → Stored
stored_of r = record {
  entries = r.0;
  sys_ctrl = first r.1;
  legacy_wg = first (drop 1 r.1);
  commands = moves_file ∷ removes_file ∷ [];
}

-- `cfg_reader_RD`; `none`: the file cannot be opened, and the result is 0. The result is 1 otherwise.
unfoldable pub cfg_reader_rd : Option (List ℕ) → Option Stored
unfolding read_entries
cfg_reader_rd none = none
cfg_reader_rd (some file) = some (stored_of (read_entries rounds reader1_cfg file))

-- A reader in the file: its type and length, two bytes each, and its five bytes.
pub record Entry : Type 0 where
  pub t0 : ℕ
  pub t1 : ℕ
  pub l0 : ℕ
  pub l1 : ℕ
  pub b0 : ℕ
  pub b1 : ℕ
  pub b2 : ℕ
  pub b3 : ℕ
  pub b4 : ℕ

abbrev pub five : Entry → List ℕ
five e = e.b0 ∷ e.b1 ∷ e.b2 ∷ e.b3 ∷ e.b4 ∷ []

abbrev pub written : List Entry → List ℕ → List ℕ
written [] rest = rest
written (e ∷ es) rest =
    e.t0 ∷ e.t1 ∷ e.l0 ∷ e.l1 ∷ e.b0 ∷ e.b1 ∷ e.b2 ∷ e.b3 ∷ e.b4 ∷ written es rest

-- The entries with their places, from the index `i` on.
abbrev pub placed : ℕ → List Entry → List (ℕ × List ℕ)
placed i [] = []
placed i (e ∷ es) = (i, five e) ∷ placed (suc i) es

-- Every entry is stored past the end of the array.
abbrev pub AllOutside : List (ℕ × List ℕ) → Type 0
AllOutside [] = Unit {0}
AllOutside (e ∷ es) = (reader_cfg_size ≤ e.0) × AllOutside es

read_entries-written :
    (es : List Entry) (i : ℕ) (rest : List ℕ)
    → read_entries (length es) i (written es rest) ≡ (placed i es, rest)
unfolding read_entries
read_entries-written [] i rest = refl
read_entries-written (e ∷ es) i rest = rw (read_entries-written es (suc i) rest) refl

placed-AllOutside : (es : List Entry) (i : ℕ) → reader_cfg_size ≤ i → AllOutside (placed i es)
placed-AllOutside [] i h = tt
placed-AllOutside (e ∷ es) i h = (h, placed-AllOutside es (suc i) (omega arith))

-- A configuration file of seven readers, with two bytes each for a type and a length and five bytes of
-- data, that are followed by the two bytes of the system, is read as it was written: the five bytes of
-- each reader in order, at the indices from 0x601 on, and the two bytes; and each of the indices lies
-- past the end of the array of eight readers.
pub cfg_reader_rd-written :
    (es : List Entry) (sys_ctrl legacy_wg : ℕ) (rest : List ℕ)
    → length es ≡ 7
    → (s : Stored) × (cfg_reader_rd (some (written es (sys_ctrl ∷ legacy_wg ∷ rest))) ≡ some s)
      × ((s.entries ≡ placed 0x601 es)
          × ((s.sys_ctrl ≡ some sys_ctrl)
              × ((s.legacy_wg ≡ some legacy_wg) × AllOutside s.entries)))
unfolding cfg_reader_rd
cfg_reader_rd-written es sys_ctrl legacy_wg rest h = (
  record {
    entries = placed 0x601 es;
    sys_ctrl = some sys_ctrl;
    legacy_wg = some legacy_wg;
    commands = moves_file ∷ removes_file ∷ [];
  },
  ap (λ r. some (stored_of r)) seven,
  (refl, (refl, (refl, placed-AllOutside es 0x601 (omega arith)))),
)
  where
    tail_of : List ℕ
    tail_of = sys_ctrl ∷ legacy_wg ∷ rest

    seven : read_entries 7 0x601 (written es tail_of) ≡ (placed 0x601 es, tail_of)
    seven =
        subst (λ n. read_entries n 0x601 (written es tail_of) ≡ (placed 0x601 es, tail_of)) h
          (read_entries-written es 0x601 tail_of)
