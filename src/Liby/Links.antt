-- ===== src/Liby/Links.antt =====
-- Circular doubly linked lists that are threaded through other structs (liby/src/list.h).
pub mod Ring
use old_tools.Common.{
  ℕ, zero, suc, ◌+◌, Bool, true, false, Option, none, some, List, ◌==◌, if◌then◌else◌,
}
use old_tools.Common.Run.{Run, done, fault, ◌>>=◌}

-- A field of `struct list_head` in memory; `none` where no `struct list_head` is allocated
abbrev pub Field : Type 0
Field = ℕ → Option ℕ

-- The memory: an address is the `struct list_head` that stands there.
pub record Memory : Type 0 where
  pub next : Field
  pub prev : Field

-- Reading a field at an address
unfoldable pub load : Field → ℕ → Run ℕ
load field a = elim (field a) [ none ↦ fault | some v ↦ done v ]

abbrev pub set : Field → ℕ → ℕ → Field
set field a v = λ x. if x == a then some v else field x

-- Writing a field at an address
unfoldable pub save : Field → ℕ → ℕ → Run Field
save field a v = elim (field a) [ none ↦ fault | some old ↦ done (set field a v) ]

-- `free` of the struct around an entry
unfoldable pub free : ℕ → Memory → Memory
free a m = record {
  next = λ x. if x == a then none else m.next x;
  prev = λ x. if x == a then none else m.prev x;
}

-- INIT_LIST_HEAD
unfoldable pub init_list_head : ℕ → Memory → Run Memory
unfolding save
init_list_head list m = do
  next ← save m.next list list
  prev ← save m.prev list list
  done (record { next = next; prev = prev })

-- `__list_add`
unfoldable pub list_add : ℕ → ℕ → ℕ → Memory → Run Memory
unfolding save
list_add new prev next m = do
  prev1 ← save m.prev next new
  next1 ← save m.next new next
  prev2 ← save prev1 new prev
  next2 ← save next1 prev new
  done (record { next = next2; prev = prev2 })

unfoldable pub list_add_tail : ℕ → ℕ → Memory → Run Memory
unfolding list_add load
list_add_tail new head m = do last ← load m.prev head; list_add new last head m

-- LIST_POISON1 and LIST_POISON2
abbrev pub list_poison1 : ℕ
list_poison1 = 1048832

abbrev pub list_poison2 : ℕ
list_poison2 = 2097664

-- `__list_del`
unfoldable pub list_unlink : ℕ → ℕ → Memory → Run Memory
unfolding save
list_unlink prev next m = do
  prev1 ← save m.prev next prev
  next1 ← save m.next prev next
  done (record { next = next1; prev = prev1 })

unfoldable pub list_del : ℕ → Memory → Run Memory
unfolding list_unlink load save
list_del entry m = do
  prev ← load m.prev entry
  next ← load m.next entry
  m1 ← list_unlink prev next m
  next1 ← save m1.next entry list_poison1
  prev1 ← save m1.prev entry list_poison2
  done (record { next = next1; prev = prev1 })

unfoldable pub list_empty : ℕ → Memory → Run Bool
unfolding load
list_empty head m = do next ← load m.next head; done (next == head)

-- The loop of `list_for_each` from `pos` on, at a body that works on a state with the memory in
-- it. The condition reads `pos->next` for its prefetch.
module _ {ℓ} {S : Type ℓ} (memory : S → Memory) (body : ℕ → S → Run S) where
  unfoldable pub list_for_each : ℕ → ℕ → ℕ → S → Run S
  unfolding load
  list_for_each zero head pos s = fault
  list_for_each (suc fuel) head pos s = do
    next ← load (memory s).next pos
    elim (pos == head) [
      | true ↦ done s
      | false ↦ do
        s' ← body pos s
        next' ← load (memory s').next pos
        list_for_each fuel head next' s'
    ]
