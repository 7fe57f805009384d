-- ===== src/Osal/Thread/Naming.antt =====
-- The names of threads: `os_procselfexepath`, `os_procselfexename` and `os_setprocparam` of
-- osal/linux/os_pthread.c. A text is the list of its bytes, without the null; a buffer is the list of all its bytes.
-- `basename` of the C library and what `readlink` gives, -1 or some bytes, are arguments.
use pc.Base.{
  ℕ, zero, suc, ◌-◌, ◌≡◌, ◌≢◌, refl, ap, arith, if◌then◌else◌, Bool, true, false, Option, some,
  none, List, [], ◌∷◌, ◌++◌, length, take, drop, replicate,
}

-- The text at the start of a buffer.
abbrev pub text : List ℕ → List ℕ
text [] = []
text (zero ∷ bs) = []
text (suc b ∷ bs) = suc b ∷ text bs

abbrev pub NoNull : List ℕ → Type 0
NoNull [] = Unit {0}
NoNull (b ∷ bs) = (b ≢ 0) × NoNull bs

-- `strncpy`
abbrev pub strncpy : List ℕ → ℕ → List ℕ → List ℕ
strncpy buffer n src = take n src ++ replicate (n - length (take n src)) 0 ++ drop n buffer

-- `buffer[i] = '\0'`
abbrev pub end_at : ℕ → List ℕ → List ℕ
end_at i buffer = take i buffer ++ 0 ∷ drop (suc i) buffer

-- "unknown"
abbrev pub unknown : List ℕ
unknown = 117 ∷ 110 ∷ 107 ∷ 110 ∷ 111 ∷ 119 ∷ 110 ∷ []

-- `os_procselfexepath`
unfoldable pub os_procselfexepath : List ℕ → ℕ → Option (List ℕ) → List ℕ
os_procselfexepath path zero answer = path
os_procselfexepath path (suc n) answer =
    let zeros = replicate (suc n) 0 in
    elim answer [
      | some bytes ↦ end_at n (take (suc n) bytes ++ drop (length (take (suc n) bytes)) zeros)
      | none ↦ end_at n (strncpy zeros n unknown)
    ]

-- PATH_MAX and TASK_COMM_LEN
abbrev pub path_max : ℕ
path_max = 4096

abbrev pub task_comm_len : ℕ
task_comm_len = 16

-- `os_procselfexename`, with a buffer for the path on the stack
unfoldable pub os_procselfexename :
    (List ℕ → List ℕ) → List ℕ → List ℕ → ℕ → Option (List ℕ) → List ℕ
unfolding os_procselfexepath
os_procselfexename basename stack name zero answer = name
os_procselfexename basename stack name (suc n) answer =
    end_at n (strncpy name n (basename (text (os_procselfexepath stack path_max answer))))

-- TK_NAME_PREFIX
abbrev pub tk_name_prefix : List ℕ
tk_name_prefix = 116 ∷ 107 ∷ 95 ∷ []

abbrev pub has_text : Option (List ℕ) → Bool
has_text (some (b ∷ bs)) = true
has_text _ = false

abbrev pub given : Option (List ℕ) → List ℕ
given (some bs) = bs
given none = []

-- `os_setprocparam`: the name that `prctl` is given. `stack` and `self` are the buffers as they are at first.
unfoldable pub os_setprocparam :
    (List ℕ → List ℕ) → List ℕ → List ℕ → Option (List ℕ) → Option (List ℕ) → List ℕ
unfolding os_procselfexename
os_setprocparam basename stack self name answer =
    if has_text name
    then given name
    else take 15
        (tk_name_prefix ++ text (os_procselfexename basename stack self task_comm_len answer))

minus_zero : (n : ℕ) → n - 0 ≡ n
minus_zero n = omega arith

minus_suc : (a b : ℕ) → suc a - suc b ≡ a - b
minus_suc a b = omega arith

text-end_at :
    (n : ℕ) (s rest more : List ℕ)
    → NoNull s
    → text (take n (take n s ++ replicate (n - length (take n s)) 0 ++ rest) ++ 0 ∷ more) ≡ take n s
text-end_at zero s rest more h = refl
text-end_at (suc n) [] rest more h = rw (minus_zero (suc n)) refl
text-end_at (suc n) (zero ∷ s) rest more h = absurd (h.0 refl)
text-end_at (suc n) (suc b ∷ s) rest more h =
    rw (minus_suc n (length (take n s))) (ap (λ bs. suc b ∷ bs) (text-end_at n s rest more h.1))

text-path :
    (n : ℕ) (s : List ℕ) (more : List ℕ)
    → NoNull s
    → text (
        take n (take (suc n) s ++ drop (length (take (suc n) s)) (replicate (suc n) 0)) ++ 0 ∷ more)
      ≡ take n s
text-path zero s more h = refl
text-path (suc n) [] more h = refl
text-path (suc n) (zero ∷ s) more h = absurd (h.0 refl)
text-path (suc n) (suc b ∷ s) more h = ap (λ bs. suc b ∷ bs) (text-path n s more h.1)

-- The path that is found: as much of the link as the buffer holds.
abbrev pub path_of : Option (List ℕ) → List ℕ
path_of (some bytes) = take 4095 bytes
path_of none = unknown

abbrev pub Answers : Option (List ℕ) → Type 0
Answers (some bytes) = NoNull bytes
Answers none = Unit {0}

os_procselfexepath-text :
    (stack : List ℕ) (answer : Option (List ℕ))
    → Answers answer
    → text (os_procselfexepath stack path_max answer) ≡ path_of answer
unfolding os_procselfexepath
os_procselfexepath-text stack (some bytes) h = text-path 4095 bytes _ h
os_procselfexepath-text stack none h = refl

-- With a basename that gives texts without a null, a thread that has no name or an empty one is given,
-- whatever the buffers held, the first 15 characters of tk_ and the first 15 characters of the base
-- name of the program's path, which is cut at 4095 characters, and is the text unknown when it cannot
-- be read.
pub os_setprocparam_lem :
    (basename : List ℕ → List ℕ) (stack self : List ℕ) (name answer : Option (List ℕ))
    → ((path : List ℕ) → NoNull (basename path))
    → Answers answer
    → has_text name ≡ false
    → os_setprocparam basename stack self name answer
      ≡ take 15 (tk_name_prefix ++ take 15 (basename (path_of answer)))
unfolding os_setprocparam os_procselfexename
os_setprocparam_lem basename stack self name answer hb ha hn =
    rw
      (
        hn,
        os_procselfexepath-text stack answer ha,
        text-end_at 15 (basename (path_of answer)) (drop 15 self) _ (hb (path_of answer)),
      )
      refl
