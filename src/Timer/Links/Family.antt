-- ===== src/Timer/Links/Family.antt =====
-- All the lists of timers at once, on one store of pointers: nodes below a bound, list heads above it.
use pc.Base.{
  ℕ, ◌+◌, ◌<◌, ◌==◌, ◌||◌, ==_iff, ==_refl, ◌≡◌, ◌≢◌, refl, subst, arith, Bool, true, false, some,
  List, [], ◌∷◌, ◌++◌, mem, remove, update, length, Bool-cases, inl, inr, ◌⊎◌, mem-remove,
  mem-append, remove-eq_self,
}
use pc.Timer.Timespec.{Timespec}
use pc.Timer.Threads.{insert_timer}
use pc.Timer.Order.{mem-insert}
use pc.Timer.Links.{Links, list_append, list_unlink_ip}
use pc.Timer.Links.Ring.{Ring, Apart, mem-Apart, Seg-agree}
use pc.Timer.Links.Append.{list_append-Ring, list_append-frame}
use pc.Timer.Links.Unlink.{
  list_unlink_ip-Ring, list_unlink-frame, list_unlink_ip-alone, self_link-Ring,
}
use pc.Timer.Links.Walk.{queue_on_links, queue_on_links-Ring}

-- The head of list `j`, with the nodes below `n`.
abbrev pub head_of : ℕ → ℕ → ℕ
head_of n j = n + j

-- The store holds the lists `lists j` that are `live`: no node is on two of them, and a node that is on none is a
-- list of its own.
pub record Held (n : ℕ) (m : Links) (live : ℕ → Bool) (lists : ℕ → List ℕ) : Type 0 where
  pub rings : (j : ℕ) → live j ≡ true → Ring m (head_of n j) (lists j)
  pub dead : (j : ℕ) → live j ≡ false → lists j ≡ []
  pub bound : (j t : ℕ) → mem t (lists j) ≡ true → t < n
  pub once : (i j t : ℕ) → mem t (lists i) ≡ true → mem t (lists j) ≡ true → i ≡ j
  pub alone : (t : ℕ) → t < n → ((j : ℕ) → mem t (lists j) ≡ false) → Ring m t []

-- Two lists that share no member are apart.
Apart-of : (xs ys : List ℕ) → ((t : ℕ) → mem t xs ≡ true → mem t ys ≡ false) → Apart xs ys
Apart-of [] ys h = tt
Apart-of (x ∷ xs) ys h =
    (h x (ground (arith, ==_refl x)), Apart-of xs ys (λ t e. h t (ground arith)))

module _ {n : ℕ} {m : Links} {live : ℕ → Bool} {lists : ℕ → List ℕ} (hd : Held n m live lists) where
  -- A head is on no list.
  head_out : (i j : ℕ) → mem (head_of n i) (lists j) ≡ false
  head_out i j = elim (Bool-cases (mem (head_of n i) (lists j))) [
    | inl e ↦ absurd (omega (arith, hd.bound j (head_of n i) e))
    | inr e ↦ e
  ]

  head_not : (i t : ℕ) → t < n → (t == head_of n i) ≡ false
  head_not i t lt = ground (arith, ==_iff t (head_of n i))

  not_both : (i j t : ℕ) → i ≢ j → mem t (lists i) ≡ true → mem t (lists j) ≡ false
  not_both i j t ne e = elim (Bool-cases (mem t (lists j))) [
    | inl f ↦ absurd (ne (hd.once i j t e f))
    | inr f ↦ f
  ]

  head_head : (i j : ℕ) → i ≢ j → (head_of n i == head_of n j) ≡ false
  head_head i j ne = ground (arith, ==_iff (head_of n i) (head_of n j))

  lists-Apart : (i j : ℕ) → i ≢ j → Apart (head_of n i ∷ lists i) (head_of n j ∷ lists j)
  lists-Apart i j ne = (
    ground (arith, head_head i j ne, head_out i j),
    Apart-of (lists i) (head_of n j ∷ lists j)
        λ t e. ground (arith, head_not j t (hd.bound i t e), not_both i j t ne e),
  )

  alone-Apart : (i t : ℕ) → t < n → mem t (lists i) ≡ false → Apart (head_of n i ∷ lists i) (t ∷ [])
  alone-Apart i t lt out = (
    ground (arith, ==_iff (head_of n i) t),
    Apart-of (lists i) (t ∷ []) λ u e. ground (arith, ==_iff u t),
  )

  -- A node that is on no list joins list `j`, and nothing else changes.
  put-Held :
      (m' : Links) (j t : ℕ) (xs : List ℕ)
      → live j ≡ true
      → t < n
      → ((i : ℕ) → mem t (lists i) ≡ false)
      → Ring m' (head_of n j) xs
      → ((u : ℕ) → mem u xs ≡ (u == t || mem u (lists j)))
      → ((g : ℕ) (ys : List ℕ)
          → Ring m g ys
          → Apart (t ∷ head_of n j ∷ lists j) (g ∷ ys)
          → Ring m' g ys)
      → Held n m' live (update lists j xs)
  put-Held m' j t xs on lt out r ms frame = record {
    rings = λ i e. elim (Bool-cases (j == i)) [
      | inl f ↦ rw f (subst (λ k. Ring m' (head_of n k) xs) ((==_iff j i).0 f) r)
      | inr f ↦ rw f (
          frame (head_of n i) (lists i) (hd.rings i e)
            (ground (arith, head_not i t lt, out i), lists-Apart j i (apart_ids i f)))
    ];
    dead = λ i e. ground (arith, ==_iff j i, hd.dead i);
    bound = λ i u e. ground (arith, ==_iff u t, ms u, hd.bound i u, hd.bound j u);
    once = λ i k u e f. ground (
      arith,
      ==_iff j i,
      ==_iff j k,
      ==_iff u t,
      ms u,
      hd.once i k u,
      hd.once j k u,
      hd.once i j u,
      out i,
      out k,
    );
    alone = λ u ul off. frame u [] (hd.alone u ul (before u off)) (
      ground (arith, absent u off, ms u, ==_iff t u, ==_iff u t),
      alone-Apart j u ul (before u off j),
    );
  }
    where
      apart_ids : (i : ℕ) → (j == i) ≡ false → j ≢ i
      apart_ids i f = λ e. ground (arith, ==_iff j i)

      absent : (u : ℕ) → ((k : ℕ) → mem u (update lists j xs k) ≡ false) → mem u xs ≡ false
      absent u off = ground (arith, off j, ==_refl j)

      before :
          (u : ℕ)
          → ((k : ℕ) → mem u (update lists j xs k) ≡ false)
          → (k : ℕ) → mem u (lists k) ≡ false
      before u off k = ground (arith, ms u, absent u off, off k, ==_iff j k)

  -- Putting a node that is on no list into a queue, among all the lists.
  pub queue_on_links-Held :
      (fuel : ℕ) (expiry : ℕ → Timespec) (j t : ℕ)
      → live j ≡ true
      → t < n
      → ((i : ℕ) → mem t (lists i) ≡ false)
      → length (lists j) < fuel
      → (m' : Links) × (queue_on_links fuel expiry m (head_of n j) t
          ≡ some (m', (insert_timer expiry t true (lists j)).1))
        × Held n m' live (update lists j (insert_timer expiry t true (lists j)).0)
  queue_on_links-Held fuel expiry j t on lt out le =
      let (m', run, r, frame) =
        queue_on_links-Ring fuel expiry m (head_of n j) t (lists j) (hd.rings j on)
          (ground (arith, head_not j t lt, out j)) le in
      (m', run, put-Held m' j t _ on lt out r (mem-insert expiry t true (lists j)) frame)

  -- Appending such a node to a list.
  pub list_append-Held :
      (j t : ℕ)
      → live j ≡ true
      → t < n
      → ((i : ℕ) → mem t (lists i) ≡ false)
      → Held n (list_append m (head_of n j) t) live (update lists j (lists j ++ t ∷ []))
  list_append-Held j t on lt out =
      put-Held _ j t _ on lt out
        (list_append-Ring m (head_of n j) t (lists j) (hd.rings j on)
          (ground (arith, head_not j t lt, out j)))
        (λ u. ground (arith, mem-append u (lists j) (t ∷ [])))
        (λ g ys q a. list_append-frame m (head_of n j) t (lists j) g ys (hd.rings j on) q a)

  unlink_ip-frame :
      (h x : ℕ) (xs : List ℕ) (g : ℕ) (ys : List ℕ)
      → Ring m h xs
      → mem x xs ≡ true
      → Ring m g ys
      → Apart (h ∷ xs) (g ∷ ys)
      → Ring (list_unlink_ip m x) g ys
  unfolding list_unlink_ip
  unlink_ip-frame h x xs g ys r w q a =
      self_link-Ring _ g x ys (list_unlink-frame m h x xs g ys r w q a)
        (mem-Apart x (h ∷ xs) (g ∷ ys) a (ground arith))

  -- A node leaves the list that it is on.
  unlinked-Held :
      (j t : ℕ)
      → live j ≡ true
      → mem t (lists j) ≡ true
      → Held n (list_unlink_ip m t) live (λ i. remove t (lists i))
  unlinked-Held j t on w = record {
    rings = λ i e. elim (Bool-cases (j == i)) [
      | inl f ↦
          subst (λ k. Ring (list_unlink_ip m t) (head_of n k) (remove t (lists k)))
            ((==_iff j i).0 f) (list_unlink_ip-Ring m (head_of n j) t (lists j) (hd.rings j on) w).0
      | inr f ↦ rw (remove-eq_self t (lists i) (not_both j i t (ids i f) w)) (
          unlink_ip-frame (head_of n j) t (lists j) (head_of n i) (lists i) (hd.rings j on) w
            (hd.rings i e) (lists-Apart j i (ids i f)))
    ];
    dead = λ i e. rw (hd.dead i e) refl;
    bound = λ i u e. ground (arith, mem-remove t u (lists i), hd.bound i u);
    once = λ i k u e f.
        ground (arith, mem-remove t u (lists i), mem-remove t u (lists k), hd.once i k u);
    alone = λ u ul off. elim (Bool-cases (t == u)) [
      | inl f ↦
          subst (λ v. Ring (list_unlink_ip m t) v []) ((==_iff t u).0 f)
            (list_unlink_ip-Ring m (head_of n j) t (lists j) (hd.rings j on) w).1
      | inr f ↦
          unlink_ip-frame (head_of n j) t (lists j) u [] (hd.rings j on) w
            (hd.alone u ul (λ i. ground (arith, off i, mem-remove t u (lists i))))
            (alone-Apart j u ul (ground (arith, off j, mem-remove t u (lists j))))
    ];
  }
    where
      ids : (i : ℕ) → (j == i) ≡ false → j ≢ i
      ids i f = λ e. ground (arith, ==_iff j i)

  -- A node on no list: nothing changes.
  alone-Ring : (t g : ℕ) (ys : List ℕ) → Ring m t [] → Ring m g ys → Ring (list_unlink_ip m t) g ys
  alone-Ring t g ys r q = record {
    linked =
        Seg-agree m _ g ys g (λ p e. (list_unlink_ip-alone m t p r).0)
          (λ p e. (list_unlink_ip-alone m t p r).1) q.linked;
    distinct = q.distinct;
  }

  still-Held :
      (t : ℕ)
      → t < n
      → ((i : ℕ) → mem t (lists i) ≡ false)
      → Held n (list_unlink_ip m t) live (λ i. remove t (lists i))
  still-Held t lt out = record {
    rings = λ i e.
        rw (remove-eq_self t (lists i) (out i))
          (alone-Ring t (head_of n i) (lists i) (hd.alone t lt out) (hd.rings i e));
    dead = λ i e. rw (hd.dead i e) refl;
    bound = λ i u e. ground (arith, mem-remove t u (lists i), hd.bound i u);
    once = λ i k u e f.
        ground (arith, mem-remove t u (lists i), mem-remove t u (lists k), hd.once i k u);
    alone = λ u ul off.
        alone-Ring t u [] (hd.alone t lt out)
          (hd.alone u ul (λ i. ground (arith, off i, out i, mem-remove t u (lists i), ==_iff t u)));
  }

  -- Unlinking a node, whichever list it is on.
  pub list_unlink_ip-Held :
      (t : ℕ)
      → t < n
      → ((j : ℕ) × (live j ≡ true) × (mem t (lists j) ≡ true)) ⊎ ((j : ℕ) → mem t (lists j) ≡ false)
      → Held n (list_unlink_ip m t) live (λ i. remove t (lists i))
  list_unlink_ip-Held t lt (inl (j, on, w)) = unlinked-Held j t on w
  list_unlink_ip-Held t lt (inr out) = still-Held t lt out
