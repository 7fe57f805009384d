-- ===== src/App/Usb/Init/Readers.antt =====
-- Which readers `eg_usbto322_init` of app/sys/eg_usbto322.c leaves set up.
use pc.Base.{
  ℕ, suc, ◌+◌, ◌≤◌, ◌≡◌, refl, sym, fun_ext, ap, subst, ◌∙◌, arith, ◌==◌, ==_refl, ==_iff, Bool,
  true, false, Option, some, none, List, [], ◌∷◌, ◌++◌, length, length-append, update, Bool-cases,
  inl, inr,
}
use pc.Timer.State.{State, Os}
use pc.Osal.Thread.{osal_task_create}
use pc.App.Usb.{init, alloc_322_index, alloc_322_index-get_elem?}
use pc.App.Usb.Devices.{split_names, joined, AllFit, split_names-joined}
use pc.App.Usb.Init.{
  Controller, UsbCcid322, DeviceOs, Init, finished, hangs, faults, note_timer, set_timer_322,
  set_up, start_readers, eg_usbto322_init, main, global_init, enter, entered, and_then, or_faults,
  priority, stack_size,
}

-- The reader's entry is filled in, and it has a timer.
pub record IsReady (c : Controller) (name : List ℕ) (index : ℕ) : Type 0 where
  pub port : (c.usb_ccid_322 index).usb_port ≡ name
  pub place : (c.usb_ccid_322 index).ccid322_index ≡ index
  pub exist : (c.usb_ccid_322 index).ccid322_exist ≡ 1
  pub begins : (c.usb_ccid_322 index).reader.usb_state ≡ init
  pub timer : ℕ
  pub handle : (c.usb_ccid_322 index).timer_322 ≡ some timer

-- Each name is in the table of ports, and its reader is ready.
abbrev pub AllReady : Controller → List (List ℕ) → Type 0
AllReady c [] = Unit {0}
AllReady c (name ∷ names) =
    ((index : ℕ) × ((alloc_322_index name ≡ some index) × IsReady c name index)) × AllReady c names

-- What setting up one reader does to the entries and the threads.
record Done (c d : Controller) (name : List ℕ) (index : ℕ) : Type 0 where
  timer : ℕ
  entries :
      d.usb_ccid_322
      ≡ update c.usb_ccid_322 index
          (record (entered (c.usb_ccid_322 index) index name) { timer_322 = some timer })
  threads : d.threads ≡ c.threads ++ index ∷ []

abbrev outcome : Controller → Init → Controller
outcome c (finished d) = d
outcome c (hangs d) = d
outcome c faults = c

note_timer-finished :
    (c d : Controller) (index : ℕ) (s : State) (handle : Option ℕ) (null : Bool)
    → note_timer c index s handle null ≡ finished d
    → (t : ℕ) × ((d.usb_ccid_322
          ≡ update c.usb_ccid_322 index (record (c.usb_ccid_322 index) { timer_322 = some t }))
        × (d.threads ≡ c.threads))
unfolding note_timer
note_timer-finished c d index s handle true h = absurd (cc)
note_timer-finished c d index s none false h = absurd (cc)
note_timer-finished c d index s (some t) false h =
    let e = ap (outcome d) h in
    (
      t,
      (sym (ap (λ (x : Controller). x.usb_ccid_322) e), sym (ap (λ (x : Controller). x.threads) e)),
    )

set_up-Done :
    (os : Os) (dev : DeviceOs) (c d : Controller) (name : List ℕ) (index : ℕ)
    → set_up os dev c name index ≡ finished d
    → Done c d name index
unfolding set_up set_timer_322
set_up-Done os dev c d name index h =
    elim (Bool-cases (osal_task_create dev.thread dev.block true stack_size priority).0) [
      | inr e ↦ let z : hangs (enter c name index) ≡ finished d = rw e at h in absurd (cc)
      | inl e ↦
          let c2 = record (enter c name index) { threads = c.threads ++ index ∷ [] } in
          let (t, (entries, threads)) = note_timer-finished c2 d index _ _ _ (rw e at h) in
          record {
            timer = t;
            entries = entries ∙ fun_ext λ i. ground (arith, ==_refl index);
            threads = threads;
          }
    ]

-- The reader that was set up is ready.
Done-IsReady :
    (c d : Controller) (name : List ℕ) (index : ℕ) → Done c d name index → IsReady d name index
Done-IsReady c d name index h =
    let at : d.usb_ccid_322 index
        ≡ record (entered (c.usb_ccid_322 index) index name) { timer_322 = some h.timer } =
      ap (λ f. f index) h.entries ∙ (rw (==_refl index) refl) in
    record {
      port = ap (λ (u : UsbCcid322). u.usb_port) at;
      place = ap (λ (u : UsbCcid322). u.ccid322_index) at;
      exist = ap (λ (u : UsbCcid322). u.ccid322_exist) at;
      begins = ap (λ (u : UsbCcid322). u.reader.usb_state) at;
      timer = h.timer;
      handle = ap (λ (u : UsbCcid322). u.timer_322) at;
    }

-- A port stands at one place of the table.
same_name : (a b : List ℕ) (i : ℕ) → alloc_322_index a ≡ some i → alloc_322_index b ≡ some i → a ≡ b
same_name a b i p q =
    let both : some a ≡ some b =
      sym ((alloc_322_index-get_elem? a i).0 p) ∙ (alloc_322_index-get_elem? b i).0 q in
    cc both

-- The readers that were ready stay so.
Done-keeps :
    (c d : Controller) (name other : List ℕ) (index i : ℕ)
    → alloc_322_index name ≡ some index
    → alloc_322_index other ≡ some i
    → Done c d name index
    → IsReady c other i
    → IsReady d other i
Done-keeps c d name other index i p q h r = elim (Bool-cases (index == i)) [
  | inl e ↦
      let z = (==_iff index i).0 e in
      let n = same_name name other i (p ∙ ap some z) q in
      subst (λ k. IsReady d other k) z
        (subst (λ k. IsReady d k index) n (Done-IsReady c d name index h))
  | inr e ↦
      let at : d.usb_ccid_322 i ≡ c.usb_ccid_322 i = ap (λ f. f i) h.entries ∙ (rw e refl) in
      record {
        port = ap (λ (u : UsbCcid322). u.usb_port) at ∙ r.port;
        place = ap (λ (u : UsbCcid322). u.ccid322_index) at ∙ r.place;
        exist = ap (λ (u : UsbCcid322). u.ccid322_exist) at ∙ r.exist;
        begins = ap (λ (u : UsbCcid322). u.reader.usb_state) at ∙ r.begins;
        timer = r.timer;
        handle = ap (λ (u : UsbCcid322). u.timer_322) at ∙ r.handle;
      }
]

or_faults-finished {ℓ} :
    {A : Type ℓ} (x : Option A) (next : A → Init) (d : Controller)
    → or_faults x next ≡ finished d
    → (a : A) × ((x ≡ some a) × (next a ≡ finished d))
or_faults-finished none next d h = absurd (cc)
or_faults-finished (some a) next d h = (a, (refl, h))

and_then-finished :
    (x : Init) (next : Controller → Init) (d : Controller)
    → and_then x next ≡ finished d
    → (e : Controller) × ((x ≡ finished e) × (next e ≡ finished d))
and_then-finished (finished e) next d h = (e, (refl, h))
and_then-finished (hangs e) next d h = absurd (cc)
and_then-finished faults next d h = absurd (cc)

-- What the loop over the devices does.
record Started (c d : Controller) (names : List (List ℕ)) : Type 0 where
  ready : AllReady d names
  keeps :
      (other : List ℕ) (i : ℕ)
      → alloc_322_index other ≡ some i
      → IsReady c other i
      → IsReady d other i
  threads : length d.threads ≡ length c.threads + length names

start_readers-Started :
    (os : Os) (dev : ℕ → DeviceOs) (i : ℕ) (names : List (List ℕ)) (c d : Controller)
    → start_readers os dev i names c ≡ finished d
    → Started c d names
unfolding start_readers
start_readers-Started os dev i [] c d h =
    let same : c ≡ d = ap (outcome d) h in
    subst (λ x. Started c x []) same
      record { ready = tt; keeps = λ other j q r. r; threads = omega arith }
start_readers-Started os dev i (name ∷ names) c d h =
    let (index, (p, h1)) = or_faults-finished (alloc_322_index name) _ d h in
    let (e, (h2, h3)) = and_then-finished (set_up os (dev i) c name index) _ d h1 in
    let first = set_up-Done os (dev i) c e name index h2 in
    let rest = start_readers-Started os dev (suc i) names e d h3 in
    let one : length e.threads ≡ length c.threads + 1 =
      ap length first.threads ∙ length-append c.threads (index ∷ []) in
    record {
      ready =
          ((index, (p, rest.keeps name index p (Done-IsReady c e name index first))), rest.ready);
      keeps = λ other j q r. rest.keeps other j q (Done-keeps c e name other index j p q first r);
      threads = omega (arith, rest.threads, one);
    }

-- When the reader library's list holds at most four names, without a null and of less than 32
-- characters, and the start of the program finishes: each name is in the table of ports, and the entry
-- at its index has the name as its port, the index, the mark that it exists, the state INIT and a
-- timer; and one thread has been started for each name.
pub main-AllReady :
    (os : Os) (dev : ℕ → DeviceOs) (names : List (List ℕ)) (c d : Controller)
    → length names ≤ 4
    → AllFit names
    → main os dev (joined names) c ≡ finished d
    → AllReady d names × (length d.threads ≡ length c.threads + length names)
unfolding main eg_usbto322_init
main-AllReady os dev names c d le fit h =
    let split = split_names-joined 4 names le fit in
    let started : Started (global_init c) d names =
      start_readers-Started os dev 0 names (global_init c) d (rw split at h) in
    (started.ready, unfold global_init in started.threads)

-- When the list holds at most four names, without a null and of less than 32 characters, of which the
-- first is not in the table of ports, the start of the program writes outside the array of readers,
-- whatever the system answers.
pub main-unknown :
    (os : Os) (dev : ℕ → DeviceOs) (name : List ℕ) (names : List (List ℕ)) (c : Controller)
    → length (name ∷ names) ≤ 4
    → AllFit (name ∷ names)
    → alloc_322_index name ≡ none
    → main os dev (joined (name ∷ names)) c ≡ faults
unfolding main eg_usbto322_init start_readers
main-unknown os dev name names c le fit h =
    let split : split_names 4 [] (joined (name ∷ names)) ≡ some (name ∷ names) =
      split_names-joined 4 (name ∷ names) le fit in
    ap (λ x. or_faults x (λ ns. start_readers os dev 0 ns (global_init c))) split ∙ (rw h refl)
