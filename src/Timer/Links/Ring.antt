-- ===== src/Timer/Links/Ring.antt =====
-- What it means that the pointers from a head go round a list of nodes, and which writes leave it so.
use pc.Base.{==_iff, ℕ, ◌≡◌, arith, true, false, List, [], ◌∷◌, mem, Distinct}
use pc.Timer.Links.{Links, set_next, set_prev, list_init, list_isempty}

-- From `a` the nodes `xs` follow one another, forward and back, up to `b`.
abbrev pub Seg : Links → ℕ → List ℕ → ℕ → Type 0
Seg m a [] b = (m.next a ≡ b) × (m.prev b ≡ a)
Seg m a (x ∷ xs) b = (m.next a ≡ x) × (m.prev x ≡ a) × Seg m x xs b

-- The list with head `h` holds the nodes `xs`, in order.
pub record Ring (m : Links) (h : ℕ) (xs : List ℕ) : Type 0 where
  pub linked : Seg m h xs h
  pub distinct : Distinct (h ∷ xs)

-- A store that agrees on the pointers of the segment holds it too.
pub Seg-agree :
    (m m' : Links) (a : ℕ) (xs : List ℕ) (b : ℕ)
    → ((p : ℕ) → mem p (a ∷ xs) ≡ true → m'.next p ≡ m.next p)
    → ((p : ℕ) → mem p (b ∷ xs) ≡ true → m'.prev p ≡ m.prev p)
    → Seg m a xs b
    → Seg m' a xs b
Seg-agree m m' a [] b fn fp s = ground (arith, fn a, fp b)
Seg-agree m m' a (x ∷ xs) b fn fp s = ground (
  arith,
  fn a,
  fp x,
  Seg-agree m m' x xs b (λ p e. fn p (ground arith)) (λ p e. fp p (ground arith)) s.2,
)

-- A write outside the segment leaves it alone.
pub set_next-Seg :
    (m : Links) (p v a : ℕ) (xs : List ℕ) (b : ℕ)
    → mem p (a ∷ xs) ≡ false
    → Seg m a xs b
    → Seg (set_next m p v) a xs b
set_next-Seg m p v a [] b h s = ground arith
set_next-Seg m p v a (x ∷ xs) b h s = ground (arith, set_next-Seg m p v x xs b)

pub set_prev-Seg :
    (m : Links) (p v a : ℕ) (xs : List ℕ) (b : ℕ)
    → mem p (b ∷ xs) ≡ false
    → Seg m a xs b
    → Seg (set_prev m p v) a xs b
set_prev-Seg m p v a [] b h s = ground arith
set_prev-Seg m p v a (x ∷ xs) b h s = ground (arith, set_prev-Seg m p v x xs b)

-- No node of the first list stands in the second.
abbrev pub Apart : List ℕ → List ℕ → Type 0
Apart [] ys = Unit {0}
Apart (x ∷ xs) ys = (mem x ys ≡ false) × Apart xs ys

pub mem-Apart : (p : ℕ) (xs ys : List ℕ) → Apart xs ys → mem p xs ≡ true → mem p ys ≡ false
mem-Apart p [] ys d h = ground arith
mem-Apart p (x ∷ xs) ys d h = ground (arith, ==_iff p x, mem-Apart p xs ys d.1)

-- The node before the end is the last of the segment.
pub prev-Seg :
    (m : Links) (a : ℕ) (xs : List ℕ) (b : ℕ) → Seg m a xs b → mem (m.prev b) (a ∷ xs) ≡ true
prev-Seg m a [] b s = ground arith
prev-Seg m a (x ∷ xs) b s = ground (arith, prev-Seg m x xs b s.2)

pub prev-Seg-tail :
    (m : Links) (a x : ℕ) (xs : List ℕ) (b : ℕ)
    → Seg m a (x ∷ xs) b
    → mem (m.prev b) (x ∷ xs) ≡ true
prev-Seg-tail m a x xs b s = prev-Seg m x xs b s.2

pub next-Seg :
    (m : Links) (a : ℕ) (xs : List ℕ) (b : ℕ) → Seg m a xs b → mem (m.next a) (b ∷ xs) ≡ true
next-Seg m a [] b s = ground arith
next-Seg m a (x ∷ xs) b s = ground arith

-- The neighbours of a node of the segment.
pub prev-Seg-mem :
    (m : Links) (x a : ℕ) (xs : List ℕ) (b : ℕ)
    → Seg m a xs b
    → mem x xs ≡ true
    → mem (m.prev x) (a ∷ xs) ≡ true
prev-Seg-mem m x a [] b s h = ground arith
prev-Seg-mem m x a (y ∷ ys) b s h = ground (arith, prev-Seg-mem m x y ys b s.2)

pub next-Seg-mem :
    (m : Links) (x a : ℕ) (xs : List ℕ) (b : ℕ)
    → Seg m a xs b
    → mem x xs ≡ true
    → mem (m.next x) (b ∷ xs) ≡ true
next-Seg-mem m x a [] b s h = ground arith
next-Seg-mem m x a (y ∷ ys) b s h = ground (arith, next-Seg m x ys b, next-Seg-mem m x y ys b s.2)

-- `list_init` makes an empty list.
pub list_init-Ring : (m : Links) (h : ℕ) → Ring (list_init m h) h []
unfolding list_init
list_init-Ring m h = ground arith

-- `list_isempty` tells the empty list, and `list_first` gives the first node.
pub list_isempty-Ring :
    (m : Links) (h : ℕ) (xs : List ℕ)
    → Ring m h xs
    → list_isempty m h ≡ (elim xs [ [] ↦ true | _ ∷ _ ↦ false ])
list_isempty-Ring m h [] r = ground arith
list_isempty-Ring m h (x ∷ xs) r = ground arith
