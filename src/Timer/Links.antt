-- ===== src/Timer/Links.antt =====
-- The circular doubly linked lists of osal/linux/os_timer.c (`struct list_links`), on an explicit store
-- of pointers. An address is a number, and a node or a list head is its address.
mod Tests
pub mod Ring
pub mod Append
pub mod Unlink
pub mod Insert
pub mod Walk
pub mod Family
use pc.Base.{ℕ, ◌==◌, Bool, update}

-- `next` and `prev` of every `struct list_links`
pub record Links : Type 0 where
  pub next : ℕ → ℕ
  pub prev : ℕ → ℕ

-- `p->next = v` and `p->prev = v`
abbrev pub set_next : Links → ℕ → ℕ → Links
set_next m p v = record m { next = update m.next p v }

abbrev pub set_prev : Links → ℕ → ℕ → Links
set_prev m p v = record m { prev = update m.prev p v }

unfoldable pub list_init : Links → ℕ → Links
list_init m list = set_next (set_prev m list list) list list

-- Each step reads the store that the steps above it have left.
unfoldable pub list_append : Links → ℕ → ℕ → Links
list_append m list newp =
    let m1 = set_prev m newp (m.prev list) in
    let m2 = set_next m1 newp list in
    let m3 = set_next m2 (m2.prev list) newp in set_prev m3 list newp

abbrev pub list_insbefore : Links → ℕ → ℕ → Links
list_insbefore = list_append

unfoldable pub list_unlink : Links → ℕ → Links
list_unlink m list =
    let lnext = m.next list in
    let lprev = m.prev list in let m1 = set_prev m lnext lprev in set_next m1 lprev lnext

unfoldable pub list_unlink_ip : Links → ℕ → Links
unfolding list_unlink
list_unlink_ip m list =
    let m1 = list_unlink m list in let m2 = set_next m1 list list in set_prev m2 list list

abbrev pub list_first : Links → ℕ → ℕ
list_first m list = m.next list

abbrev pub list_null : ℕ → ℕ
list_null list = list

abbrev pub list_next : Links → ℕ → ℕ
list_next m list = m.next list

abbrev pub list_isempty : Links → ℕ → Bool
list_isempty m list = m.next list == list
