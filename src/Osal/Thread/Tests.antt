-- ===== src/Osal/Thread/Tests.antt =====
-- Names and threads at work: a program in /usr/bin, and a thread that starts.
use pc.Base.{
  ℕ, suc, zero, ◌≡◌, refl, if◌then◌else◌, ◌==◌, Bool-cases, inl, inr, true, some, none, List, [],
  ◌∷◌, ◌++◌, take,
}
use pc.Base.Int.{pos}
use pc.Osal.Thread.{ThreadOs, os_pthread_create, creates, frees}
use pc.Osal.Thread.Naming.{
  text, NoNull, os_setprocparam, tk_name_prefix, path_of, os_setprocparam_lem,
}
use pc.Osal.Thread.Wrapper.{whole_life, start_routine_wrapper-frees}

-- What follows the last slash.
abbrev last_part : List ℕ → List ℕ → List ℕ
last_part part [] = part
last_part part (b ∷ bs) =
    let cut = last_part bs bs in let kept = last_part part bs in if b == 47 then cut else kept

abbrev basename : List ℕ → List ℕ
basename path = last_part (text path) (text path)

text-NoNull : (bs : List ℕ) → NoNull (text bs)
text-NoNull [] = tt
text-NoNull (zero ∷ bs) = tt
text-NoNull (suc b ∷ bs) = (λ e. cc, text-NoNull bs)

last_part-NoNull : (part bs : List ℕ) → NoNull part → NoNull bs → NoNull (last_part part bs)
last_part-NoNull part [] h k = h
last_part-NoNull part (b ∷ bs) h k = elim (Bool-cases (b == 47)) [
  | inl e ↦ rw e (last_part-NoNull bs bs k.1 k.1)
  | inr e ↦ rw e (last_part-NoNull part bs h k.1)
]

basename-NoNull : (path : List ℕ) → NoNull (basename path)
basename-NoNull path =
    last_part-NoNull (text path) (text path) (text-NoNull path) (text-NoNull path)

-- /bin/eg
abbrev link : List ℕ
link = 47 ∷ 98 ∷ 105 ∷ 110 ∷ 47 ∷ 101 ∷ 103 ∷ []

os_setprocparam_lem_example :
    os_setprocparam basename [] [] none (some link)
    ≡ take 15 (tk_name_prefix ++ take 15 (basename (path_of (some link))))
os_setprocparam_lem_example =
    os_setprocparam_lem basename [] [] none (some link) basename-NoNull
      ((λ e. cc), ((λ e. cc), ((λ e. cc), ((λ e. cc), ((λ e. cc), ((λ e. cc), ((λ e. cc), tt)))))))
      refl

abbrev all_well : ThreadOs
all_well = record {
  stack_min = 16384;
  attr_init_ret = pos 0;
  stacksize_ret = pos 0;
  detachstate_ret = pos 0;
  inheritsched_ret = pos 0;
  schedpolicy_ret = pos 0;
  schedparam_ret = pos 0;
  memory = true;
  name_memory = true;
  create_ret = pos 0;
}

start_routine_wrapper-frees_example :
    frees (whole_life all_well true (pos 50) (pos 0) 3 4)
    ≡ creates (os_pthread_create all_well true (pos 50) (pos 0)).1
start_routine_wrapper-frees_example = start_routine_wrapper-frees all_well true (pos 50) (pos 0) 3 4
