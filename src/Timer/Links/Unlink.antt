-- ===== src/Timer/Links/Unlink.antt =====
-- `list_unlink` takes a node out of the list that holds it.
use pc.Base.{
  inl, inr, Bool-cases, ==_iff, mem-remove, remove-Distinct, ℕ, ◌==◌, ◌≡◌, arith, true, false, List,
  [], ◌∷◌, mem, remove, Distinct, remove-eq_self,
}
use pc.Timer.Links.{Links, set_next, set_prev, list_unlink, list_unlink_ip}
use pc.Timer.Links.Ring.{
  Seg, Ring, Apart, mem-Apart, Seg-agree, set_next-Seg, set_prev-Seg, prev-Seg-mem, next-Seg-mem,
}

-- The first node goes.
unlink_first-Seg :
    (m : Links) (x a : ℕ) (xs : List ℕ) (b : ℕ)
    → Seg m a (x ∷ xs) b
    → Distinct (a ∷ x ∷ xs)
    → mem b (x ∷ xs) ≡ false
    → Seg (list_unlink m x) a xs b
unfolding list_unlink
unlink_first-Seg m x a [] b s d k = ground arith
unlink_first-Seg m x a (y ∷ ys) b s d k = ground (
  arith,
  set_next-Seg (set_prev m (m.next x) (m.prev x)) (m.prev x) (m.next x) y ys b,
  set_prev-Seg m (m.next x) (m.prev x) y ys b,
)

-- A later node goes, if the rest of the segment loses it rightly.
unlink_later-Seg :
    (m : Links) (x a y : ℕ) (ys : List ℕ) (b : ℕ)
    → Seg m a (y ∷ ys) b
    → Distinct (a ∷ y ∷ ys)
    → mem b (y ∷ ys) ≡ false
    → mem x ys ≡ true
    → Seg (list_unlink m x) y (remove x ys) b
    → Seg (list_unlink m x) a (y ∷ remove x ys) b
unfolding list_unlink
unlink_later-Seg m x a y ys b s d k g ih =
    ground (arith, ih, prev-Seg-mem m x y ys b s.2 g, next-Seg-mem m x y ys b s.2 g)

pub list_unlink-Seg :
    (m : Links) (x a : ℕ) (xs : List ℕ) (b : ℕ)
    → Seg m a xs b
    → Distinct (a ∷ xs)
    → mem b xs ≡ false
    → mem x xs ≡ true
    → Seg (list_unlink m x) a (remove x xs) b
list_unlink-Seg m x a [] b s d k h = ground arith
list_unlink-Seg m x a (y ∷ ys) b s d k h = elim (Bool-cases (x == y)) [
  | inl e ↦ rw (e, remove-eq_self x ys (ground (arith, ==_iff x y))) (first ((==_iff x y).0 e))
  | inr e ↦ rw e (
      unlink_later-Seg m x a y ys b s d k (ground arith)
        (list_unlink-Seg m x y ys b s.2 d.1 (ground arith) (ground arith)))
]
  where
    first : x ≡ y → Seg (list_unlink m x) a ys b
    first e = unlink_first-Seg m x a ys b (rw e s) (rw e d) (rw e k)

-- Unlinking a node of a circular list, on the store of pointers, leaves the circular list without the
-- node, in the old order.
pub list_unlink-Ring :
    (m : Links) (h x : ℕ) (xs : List ℕ)
    → Ring m h xs
    → mem x xs ≡ true
    → Ring (list_unlink m x) h (remove x xs)
list_unlink-Ring m h x xs r k = record {
  linked = list_unlink-Seg m x h xs h r.linked r.distinct r.distinct.0 k;
  distinct = ground (arith, mem-remove x h xs, remove-Distinct x xs r.distinct.1);
}

-- Self-linking a node outside a list leaves the list alone.
pub self_link-Ring :
    (m : Links) (h x : ℕ) (xs : List ℕ)
    → Ring m h xs
    → mem x (h ∷ xs) ≡ false
    → Ring (set_prev (set_next m x x) x x) h xs
self_link-Ring m h x xs r k = record {
  linked = set_prev-Seg (set_next m x x) x x h xs h k (set_next-Seg m x x h xs h k r.linked);
  distinct = r.distinct;
}

-- Unlinking a node of a circular list in place, on the store of pointers, leaves the circular list
-- without the node, in the old order, and makes the node a list of its own.
pub list_unlink_ip-Ring :
    (m : Links) (h x : ℕ) (xs : List ℕ)
    → Ring m h xs
    → mem x xs ≡ true
    → Ring (list_unlink_ip m x) h (remove x xs) × Ring (list_unlink_ip m x) x []
unfolding list_unlink_ip
list_unlink_ip-Ring m h x xs r k = (
  self_link-Ring _ h x (remove x xs) (list_unlink-Ring m h x xs r k)
      (ground (arith, mem-remove x x xs, ==_iff x h, r.distinct.0)),
  ground arith,
)

-- Unlinking in place a node that is on no list but its own changes no pointer.
pub list_unlink_ip-alone :
    (m : Links) (x p : ℕ)
    → Ring m x []
    → let m' = list_unlink_ip m x in (m'.next p ≡ m.next p) × (m'.prev p ≡ m.prev p)
unfolding list_unlink_ip list_unlink
list_unlink_ip-alone m x p r = ground arith

-- Unlinking a node of one circular list leaves every other circular list that shares no node with it as
-- it is.
pub list_unlink-frame :
    (m : Links) (h x : ℕ) (xs : List ℕ) (g : ℕ) (ys : List ℕ)
    → Ring m h xs
    → mem x xs ≡ true
    → Ring m g ys
    → Apart (h ∷ xs) (g ∷ ys)
    → Ring (list_unlink m x) g ys
unfolding list_unlink
list_unlink-frame m h x xs g ys r c q k = record {
  linked =
      Seg-agree m _ g ys g (λ p e. ground (arith, back)) (λ p e. ground (arith, forth)) q.linked;
  distinct = q.distinct;
}
  where
    back : mem (m.prev x) (g ∷ ys) ≡ false
    back = mem-Apart (m.prev x) (h ∷ xs) (g ∷ ys) k (prev-Seg-mem m x h xs h r.linked c)

    forth : mem (m.next x) (g ∷ ys) ≡ false
    forth = mem-Apart (m.next x) (h ∷ xs) (g ∷ ys) k (next-Seg-mem m x h xs h r.linked c)
