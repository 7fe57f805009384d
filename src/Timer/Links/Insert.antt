-- ===== src/Timer/Links/Insert.antt =====
-- `list_insbefore` between two nodes of a circular list: what the insertion of a node by expiry time
-- does to the list around its place, and to the other lists.
use pc.Base.{
  ℕ, ◌==◌, ==_iff, ◌≡◌, arith, true, false, List, ◌∷◌, mem, Distinct, Bool-cases, inl, inr,
}
use pc.Timer.Links.{Links, list_append}
use pc.Timer.Links.Ring.{Seg, Ring, Apart, mem-Apart, Seg-agree, prev-Seg, prev-Seg-mem}

differ : (p q : ℕ) (xs : List ℕ) → mem p xs ≡ true → mem q xs ≡ false → (p == q) ≡ false
differ p q xs h k = elim (Bool-cases (p == q)) [
  | inl e ↦ absurd (ground (arith, ==_iff p q))
  | inr e ↦ e
]

swap_out :
    (b t : ℕ) (ts : List ℕ) → mem b (t ∷ ts) ≡ false → mem t ts ≡ false → mem t (b ∷ ts) ≡ false
swap_out b t ts h k = ground (arith, ==_iff t b)

-- Inserting before the node that follows `a`.
pub insert_here-Seg :
    (m : Links) (n a t : ℕ) (ts : List ℕ) (b : ℕ)
    → Seg m a (t ∷ ts) b
    → Distinct (a ∷ t ∷ ts)
    → mem b (t ∷ ts) ≡ false
    → mem n (a ∷ b ∷ t ∷ ts) ≡ false
    → Seg (list_append m t n) a (n ∷ t ∷ ts) b
unfolding list_append
insert_here-Seg m n a t ts b s d h k = (
  ground arith,
  ground arith,
  (
    ground arith,
    ground arith,
    Seg-agree m _ t ts b
        (λ p e. ground (arith, differ p n (t ∷ ts) e (ground arith), differ p a (t ∷ ts) e d.0))
        (λ p e. ground (
          arith,
          differ p n (b ∷ ts) e (ground arith),
          differ p t (b ∷ ts) e (swap_out b t ts h d.1.0),
        ))
        s.2,
  ),
)

before_iter :
    (m : Links) (t iter : ℕ) (ts : List ℕ) (b : ℕ)
    → Seg m t ts b
    → mem iter (b ∷ ts) ≡ true
    → mem (m.prev iter) (t ∷ ts) ≡ true
before_iter m t iter ts b s w = elim (Bool-cases (iter == b)) [
  | inl e ↦ ground (arith, ==_iff iter b, prev-Seg m t ts b s)
  | inr e ↦ prev-Seg-mem m iter t ts b s (ground arith)
]

-- Inserting further on leaves the first step of the segment alone.
pub insert_later-Seg :
    (m : Links) (n a t iter : ℕ) (ts us : List ℕ) (b : ℕ)
    → Seg m a (t ∷ ts) b
    → Distinct (a ∷ t ∷ ts)
    → mem b (t ∷ ts) ≡ false
    → mem n (a ∷ b ∷ t ∷ ts) ≡ false
    → mem iter (b ∷ ts) ≡ true
    → Seg (list_append m iter n) t us b
    → Seg (list_append m iter n) a (t ∷ us) b
unfolding list_append
insert_later-Seg m n a t iter ts us b s d h k w ih = ground (
  arith,
  ih,
  before_iter m t iter ts b s.2 w,
  differ (m.prev iter) a (t ∷ ts) (before_iter m t iter ts b s.2 w) d.0,
  differ iter t (b ∷ ts) w (swap_out b t ts h d.1.0),
)

-- Inserting before a node of one list, or before its head, leaves the other lists alone.
pub insert-frame :
    (m : Links) (h n iter : ℕ) (xs : List ℕ) (g : ℕ) (ys : List ℕ)
    → Ring m h xs
    → mem iter (h ∷ xs) ≡ true
    → Ring m g ys
    → Apart (n ∷ h ∷ xs) (g ∷ ys)
    → Ring (list_append m iter n) g ys
unfolding list_append
insert-frame m h n iter xs g ys r w q k =
    let before =
      mem-Apart (m.prev iter) (h ∷ xs) (g ∷ ys) k.1 (before_iter m h iter xs h r.linked w) in
    let here = mem-Apart iter (h ∷ xs) (g ∷ ys) k.1 w in
    record {
      linked =
          Seg-agree m _ g ys g
            (λ p e.
              ground (arith, differ p n (g ∷ ys) e k.0, differ p (m.prev iter) (g ∷ ys) e before))
            (λ p e. ground (arith, differ p n (g ∷ ys) e k.0, differ p iter (g ∷ ys) e here))
            q.linked;
      distinct = q.distinct;
    }
