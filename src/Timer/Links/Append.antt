-- ===== src/Timer/Links/Append.antt =====
-- `list_append` puts a node before a given one: at the end of the list, when that one is the head.
use pc.Base.{ℕ, ◌≡◌, ◌≢◌, arith, true, false, List, [], ◌∷◌, ◌++◌, mem, Distinct, snoc-Distinct}
use pc.Timer.Links.{Links, list_append}
use pc.Timer.Links.Ring.{Seg, Ring, Apart, mem-Apart, Seg-agree, prev-Seg}

-- Inside a segment: the new node goes between its last node and its end.
pub list_append-Seg :
    (m : Links) (n a : ℕ) (xs : List ℕ) (b : ℕ)
    → Seg m a xs b
    → Distinct (a ∷ xs)
    → mem n (a ∷ b ∷ xs) ≡ false
    → mem b xs ≡ false
    → Seg (list_append m b n) a (xs ++ n ∷ []) b
unfolding list_append
list_append-Seg m n a [] b s d h k = ground arith
list_append-Seg m n a (x ∷ xs) b s d h k =
    ground (arith, list_append-Seg m n x xs b s.2, prev-Seg m x xs b s.2)

-- Appending a node that is not on a circular list, on the store of pointers, gives the circular list
-- with the node at its end.
pub list_append-Ring :
    (m : Links) (h n : ℕ) (xs : List ℕ)
    → Ring m h xs
    → mem n (h ∷ xs) ≡ false
    → Ring (list_append m h n) h (xs ++ n ∷ [])
list_append-Ring m h n xs r k = record {
  linked =
      list_append-Seg m n h xs h r.linked r.distinct (ground arith) (ground (arith, r.distinct.0));
  distinct = snoc-Distinct n (h ∷ xs) r.distinct k;
}

-- Appending a node to one circular list leaves every other circular list as it is, if the lists share
-- no node and the new node is not on the other.
pub list_append-frame :
    (m : Links) (h n : ℕ) (xs : List ℕ) (g : ℕ) (ys : List ℕ)
    → Ring m h xs
    → Ring m g ys
    → Apart (n ∷ h ∷ xs) (g ∷ ys)
    → Ring (list_append m h n) g ys
unfolding list_append
list_append-frame m h n xs g ys r q k = record {
  linked =
      Seg-agree m _ g ys g (λ p e. ground (arith, out p e, back)) (λ p e. ground (arith, out p e))
        q.linked;
  distinct = q.distinct;
}
  where
    back : mem (m.prev h) (g ∷ ys) ≡ false
    back = mem-Apart (m.prev h) (h ∷ xs) (g ∷ ys) k.1 (prev-Seg m h xs h r.linked)

    out : (p : ℕ) → mem p (g ∷ ys) ≡ true → (p ≢ n) × (p ≢ h)
    out p e = (λ w. ground (arith, k.0), λ w. ground (arith, k.1.0))
