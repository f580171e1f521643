-- ===== src/Chain.antt =====
-- src/sapphireos/list.c: doubly linked lists of nodes that memory handles name. A negative handle, -1 in
-- this code, is `none`. The store says what node a handle leads to; `none` as the result of an operation
-- is a handle that leads to nothing, where mem2_vp_get_ptr asserts.
pub mod Linked
pub mod Inserts
pub mod Removal
pub mod Walks
mod Tests
use Prim.Native.Nat.{zero, suc}
use chromatron.Base.{
  ℕ, ◌+◌, ◌%◌, ◌^◌, Bool, true, false, Option, none, some, List, ◌==◌, if◌then◌else◌,
}
use chromatron.Base.Bytes.{◌>>=◌}

-- `list_node_state_t`
pub record Node : Type 0 where
  pub prev : Option ℕ
  pub next : Option ℕ
  pub payload : List ℕ

abbrev pub Store : Type 0
Store = ℕ → Option Node

-- `list_t`, once it is initialised
pub record Endpoints : Type 0 where
  pub head : Option ℕ
  pub tail : Option ℕ

-- list_v_init
abbrev pub empty : Endpoints
empty = record { head = none; tail = none }

-- a write through mem2_vp_get_ptr
unfoldable pub modify : ℕ → (Node → Node) → Store → Option Store
modify h f st = elim (st h) [
  | none ↦ none
  | some n ↦ some (λ a. if a == h then some (f n) else st a)
]

-- `state->next` is followed in list_v_insert_after: to the end of the list, or to a node whose `prev` is
-- set.
unfoldable pub link_back : Option ℕ → ℕ → Endpoints → Store → Option (Endpoints × Store)
link_back none new l st = some (record l { tail = some new }, st)
link_back (some h) new l st = do
  st' ← modify h (λ n. record n { prev = some new }) st
  some (l, st')

-- list_v_insert_after
unfoldable pub insert_after : ℕ → ℕ → Endpoints → Store → Option (Endpoints × Store)
insert_after node new l st = do
  state ← st node
  st1 ← modify new (λ n. record n { prev = some node; next = state.next }) st
  linked ← link_back state.next new l st1
  st3 ← modify node (λ n. record n { next = some new }) linked.1
  some (linked.0, st3)

-- the branch of list_v_insert_tail and list_v_insert_head on an empty list
unfoldable pub insert_first : ℕ → Store → Option (Endpoints × Store)
insert_first node st = do
  st' ← modify node (λ n. record n { prev = none; next = none }) st
  some (record { head = some node; tail = some node }, st')

-- list_v_insert_tail
unfoldable pub insert_tail : ℕ → Endpoints → Store → Option (Endpoints × Store)
insert_tail node l st = elim l.tail [
  | none ↦ insert_first node st
  | some last ↦ insert_after last node l st
]

-- list_v_insert_head
unfoldable pub insert_head : ℕ → Endpoints → Store → Option (Endpoints × Store)
insert_head node l st = elim l.head [
  | none ↦ insert_first node st
  | some first ↦ do
    st1 ← modify first (λ n. record n { prev = some node }) st
    st2 ← modify node (λ n. record n { prev = none; next = some first }) st1
    some (record l { head = some node }, st2)
]

-- what list_v_remove does before the node, and behind it
unfoldable pub unlink_prev : Option ℕ → Option ℕ → Endpoints → Store → Option (Endpoints × Store)
unlink_prev none next l st = some (record l { head = next }, st)
unlink_prev (some p) next l st = do st' ← modify p (λ n. record n { next = next }) st; some (l, st')

unfoldable pub unlink_next : Option ℕ → Option ℕ → Endpoints → Store → Option (Endpoints × Store)
unlink_next prev none l st = some (record l { tail = prev }, st)
unlink_next prev (some q) l st = do st' ← modify q (λ n. record n { prev = prev }) st; some (l, st')

-- list_v_remove
unfoldable pub remove : ℕ → Endpoints → Store → Option (Endpoints × Store)
remove node l st = do
  state ← st node
  before ← unlink_prev state.prev state.next l st
  unlink_next state.prev state.next before.0 before.1

-- The loop of list_u8_count, whose count is a `uint8_t`, on fuel for the nodes. It runs for ever, here out
-- of fuel, round a cycle.
unfoldable pub count_from : ℕ → ℕ → Option ℕ → Store → Option ℕ
count_from fuel n none st = some n
count_from zero n (some h) st = none
count_from (suc fuel) n (some h) st = do
  state ← st h
  count_from fuel ((n + 1) % 2 ^ 8) state.next st

-- list_u8_count
unfoldable pub count : ℕ → Endpoints → Store → Option ℕ
count fuel l st = count_from fuel 0 l.head st

-- the loop of list_ln_index
unfoldable pub index_from : ℕ → Option ℕ → Store → Option (Option ℕ)
index_from index none st = some none
index_from zero (some h) st = some (some h)
index_from (suc index) (some h) st = do state ← st h; index_from index state.next st

-- list_ln_index
unfoldable pub index : ℕ → Endpoints → Store → Option (Option ℕ)
index i l st = index_from i l.head st
