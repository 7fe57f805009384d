-- ===== src/Timer/Links/Walk.antt =====
-- `__timer_thread_queue_timer` on the store of pointers: the walk along the queue to the place of the
-- timer, and the insertion there.
use pc.Base.{
  ap, ◌∙◌, ℕ, zero, suc, ◌<◌, ◌==◌, ==_iff, ==_refl, ◌≡◌, refl, arith, Bool, true, false, Option,
  some, none, List, [], ◌∷◌, mem, length, Distinct, Bool-cases, inl, inr,
}
use pc.Timer.Timespec.{Timespec, is_before}
use pc.Timer.Threads.{insert_timer}
use pc.Timer.Order.{mem-insert, insert-Distinct}
use pc.Timer.Links.{Links, list_first, list_next, list_null, list_append, list_insbefore}
use pc.Timer.Links.Append.{list_append-Seg}
use pc.Timer.Links.Ring.{Seg, Ring, Apart}
use pc.Timer.Links.Insert.{insert_here-Seg, insert_later-Seg, insert-frame}

-- The loop: where it stops, and the flag `athead`. `none`: the fuel has run out.
unfoldable pub queue_walk : ℕ → (ℕ → Timespec) → Links → ℕ → ℕ → ℕ → Bool → Option (ℕ × Bool)
queue_walk zero expiry m head insert iter athead = none
queue_walk (suc fuel) expiry m head insert iter athead = elim (iter == list_null head) [
  | true ↦ some (iter, athead)
  | false ↦ elim (is_before (expiry insert) (expiry iter)) [
    | true ↦ some (iter, athead)
    | false ↦ queue_walk fuel expiry m head insert (list_next m iter) false
  ]
]

-- The function, on the list with the given head.
unfoldable pub queue_on_links : ℕ → (ℕ → Timespec) → Links → ℕ → ℕ → Option (Links × Bool)
unfolding queue_walk
queue_on_links fuel expiry m head insert =
    elim (queue_walk fuel expiry m head insert (list_first m head) true) [
      | some (iter, athead) ↦ some (list_insbefore m iter insert, athead)
      | none ↦ none
    ]

-- What the walk from the node after `a` finds, and what inserting there gives.
record Placed (expiry : ℕ → Timespec) (m : Links) (n a : ℕ) (xs : List ℕ) (b : ℕ) (athead : Bool)
    (r : ℕ × Bool) : Type 0 where
  place : mem r.0 (b ∷ xs) ≡ true
  linked : Seg (list_append m r.0 n) a (insert_timer expiry n athead xs).0 b
  flag : r.1 ≡ (insert_timer expiry n athead xs).1

walk-end :
    (fuel : ℕ) (expiry : ℕ → Timespec) (m : Links) (b n : ℕ) (athead : Bool)
    → queue_walk (suc fuel) expiry m b n b athead ≡ some (b, athead)
unfolding queue_walk
walk-end fuel expiry m b n athead = ground (arith, ==_refl b)

walk-here :
    (fuel : ℕ) (expiry : ℕ → Timespec) (m : Links) (b n t : ℕ) (athead : Bool)
    → (t == b) ≡ false
    → is_before (expiry n) (expiry t) ≡ true
    → queue_walk (suc fuel) expiry m b n t athead ≡ some (t, athead)
unfolding queue_walk
walk-here fuel expiry m b n t athead h e = ground arith

walk-next :
    (fuel : ℕ) (expiry : ℕ → Timespec) (m : Links) (b n t : ℕ) (athead : Bool)
    → (t == b) ≡ false
    → is_before (expiry n) (expiry t) ≡ false
    → queue_walk (suc fuel) expiry m b n t athead ≡ queue_walk fuel expiry m b n (m.next t) false
unfolding queue_walk
walk-next fuel expiry m b n t athead h e = ground arith

-- The walk goes on past `t`.
past-Placed :
    (expiry : ℕ → Timespec) (m : Links) (n a t : ℕ) (ts : List ℕ) (b : ℕ) (athead : Bool)
    (r : ℕ × Bool)
    → Seg m a (t ∷ ts) b
    → Distinct (a ∷ t ∷ ts)
    → mem b (t ∷ ts) ≡ false
    → mem n (a ∷ b ∷ t ∷ ts) ≡ false
    → is_before (expiry n) (expiry t) ≡ false
    → Placed expiry m n t ts b false r
    → Placed expiry m n a (t ∷ ts) b athead r
unfolding insert_timer
past-Placed expiry m n a t ts b athead r s d h k e p = record {
  place = ground (arith, p.place);
  linked = rw e (insert_later-Seg m n a t r.0 ts _ b s d h k p.place p.linked);
  flag = rw e p.flag;
}

here-Placed :
    (expiry : ℕ → Timespec) (m : Links) (n a t : ℕ) (ts : List ℕ) (b : ℕ) (athead : Bool)
    → Seg m a (t ∷ ts) b
    → Distinct (a ∷ t ∷ ts)
    → mem b (t ∷ ts) ≡ false
    → mem n (a ∷ b ∷ t ∷ ts) ≡ false
    → is_before (expiry n) (expiry t) ≡ true
    → Placed expiry m n a (t ∷ ts) b athead (t, athead)
unfolding insert_timer
here-Placed expiry m n a t ts b athead s d h k e = record {
  place = ground (arith, ==_refl t);
  linked = rw e (insert_here-Seg m n a t ts b s d h k);
  flag = rw e refl;
}

end-Placed :
    (expiry : ℕ → Timespec) (m : Links) (n a b : ℕ) (athead : Bool)
    → Seg m a [] b
    → mem n (a ∷ b ∷ []) ≡ false
    → Placed expiry m n a [] b athead (b, athead)
unfolding insert_timer
end-Placed expiry m n a b athead s k = record {
  place = ground (arith, ==_refl b);
  linked = list_append-Seg m n a [] b s (refl, tt) k refl;
  flag = refl;
}

not_end : (b t : ℕ) (ts : List ℕ) → mem b (t ∷ ts) ≡ false → (t == b) ≡ false
not_end b t ts h = ground (arith, ==_iff t b, ==_refl b)

fewer : (n a b t : ℕ) (ts : List ℕ) → mem n (a ∷ b ∷ t ∷ ts) ≡ false → mem n (t ∷ b ∷ ts) ≡ false
fewer n a b t ts k = ground arith

later : (b t : ℕ) (ts : List ℕ) → mem b (t ∷ ts) ≡ false → mem b ts ≡ false
later b t ts h = ground arith

queue_walk-Placed :
    (fuel : ℕ) (expiry : ℕ → Timespec) (m : Links) (n a : ℕ) (xs : List ℕ) (b : ℕ) (athead : Bool)
    → Seg m a xs b
    → Distinct (a ∷ xs)
    → mem b xs ≡ false
    → mem n (a ∷ b ∷ xs) ≡ false
    → length xs < fuel
    → (r : ℕ × Bool) × (queue_walk fuel expiry m b n (m.next a) athead ≡ some r)
      × Placed expiry m n a xs b athead r
queue_walk-Placed zero expiry m n a xs b athead s d h k lt = absurd (omega arith)
queue_walk-Placed (suc fuel) expiry m n a [] b athead s d h k lt =
    ((b, athead), rw s.0 (walk-end fuel expiry m b n athead), end-Placed expiry m n a b athead s k)
queue_walk-Placed (suc fuel) expiry m n a (t ∷ ts) b athead s d h k lt =
    elim (Bool-cases (is_before (expiry n) (expiry t))) [
      | inl e ↦ (
        (t, athead),
        rw s.0 (walk-here fuel expiry m b n t athead (not_end b t ts h) e),
        here-Placed expiry m n a t ts b athead s d h k e,
      )
      | inr e ↦
          let (r, run, p) =
            queue_walk-Placed fuel expiry m n t ts b false s.2 d.1 (later b t ts h)
              (fewer n a b t ts k) (omega arith) in
          (
            r,
            rw s.0 (walk-next fuel expiry m b n t athead (not_end b t ts h) e ∙ run),
            past-Placed expiry m n a t ts b athead r s d h k e p,
          )
    ]

queue_on_links-some :
    (fuel : ℕ) (expiry : ℕ → Timespec) (m : Links) (h n : ℕ) (r : ℕ × Bool)
    → queue_walk fuel expiry m h n (m.next h) true ≡ some r
    → queue_on_links fuel expiry m h n ≡ some (list_append m r.0 n, r.1)
unfolding queue_on_links
queue_on_links-some fuel expiry m h n r e = ground arith

twice : (n h : ℕ) (xs : List ℕ) → mem n (h ∷ xs) ≡ false → mem n (h ∷ h ∷ xs) ≡ false
twice n h xs k = ground arith

insert_out :
    (expiry : ℕ → Timespec) (n h : ℕ) (xs : List ℕ)
    → mem n (h ∷ xs) ≡ false
    → mem h xs ≡ false
    → mem h (insert_timer expiry n true xs).0 ≡ false
insert_out expiry n h xs k d = ground (arith, mem-insert expiry n true xs h, ==_iff h n, ==_refl n)

-- With more fuel than the circular list has nodes, putting a node that is not on it into the list by
-- expiry time, on the store of pointers, ends, gives the flag that the insertion into the list of nodes
-- gives, and leaves the circular list of the nodes with the new one inserted; and every other circular
-- list that shares no node with these stays as it is.
pub queue_on_links-Ring :
    (fuel : ℕ) (expiry : ℕ → Timespec) (m : Links) (h n : ℕ) (xs : List ℕ)
    → Ring m h xs
    → mem n (h ∷ xs) ≡ false
    → length xs < fuel
    → (m' : Links) × (queue_on_links fuel expiry m h n
        ≡ some (m', (insert_timer expiry n true xs).1))
      × Ring m' h (insert_timer expiry n true xs).0
      × ((g : ℕ) (ys : List ℕ) → Ring m g ys → Apart (n ∷ h ∷ xs) (g ∷ ys) → Ring m' g ys)
queue_on_links-Ring fuel expiry m h n xs r k lt =
    let (res, run, p) =
      queue_walk-Placed fuel expiry m n h xs h true r.linked r.distinct r.distinct.0
        (twice n h xs k) lt in
    (
      list_append m res.0 n,
      queue_on_links-some fuel expiry m h n res run
          ∙ ap (λ f. some (list_append m res.0 n, f)) p.flag,
      record {
        linked = p.linked;
        distinct = (
          insert_out expiry n h xs k r.distinct.0,
          insert-Distinct expiry n true xs (ground arith) r.distinct.1,
        );
      },
      λ g ys q a. insert-frame m h n res.0 xs g ys r p.place q a,
    )
