-- ===== src/Swap.antt =====
-- src/Common/include/CBB_basic_swap.h, CBB_lru.h and CBB_list.h: the queue of pages by which an
-- IOnode chooses the blocks to swap out, least recently used first, and the list of dirty pages.
--
-- A page is an address; `next` and `prev` are its links in the ring, and `next_dirty` and
-- `pre_dirty` those in the list of dirty pages, none while it is in no list. In the order of the
-- ring, `tail` is the page popped last, the pages in use follow, from the least recently used one
-- on, and then `head` and the free pages.
pub mod WriteBack
use huron_fs.Prelude.Int.{ℤ, pos, negsuc}
use huron_fs.Prelude.{
  arith, ◌≡◌, ℕ, zero, suc, ◌+◌, ◌-◌, Bool, true, false, not, ◌&&◌, ◌||◌, Option, none, some, List,
  [], ◌∷◌, ◌++◌, ◌==◌, if◌then◌else◌,
}

unfoldable pub assign : {A : Type 0} → ℕ → A → (ℕ → A) → ℕ → A
assign page a f p = if p == page then a else f p

pub assign_self : {A : Type 0} (n : ℕ) (a : A) (f : ℕ → A) → assign n a f n ≡ a
unfolding assign
assign_self n a f = ground arith

pub record AccessQueue (A : Type 0) : Type 0 where
  pub next : ℕ → ℕ
  pub prev : ℕ → ℕ
  pub item : ℕ → Option A
  pub next_dirty : ℕ → Option ℕ
  pub pre_dirty : ℕ → Option ℕ
  pub head : ℕ
  pub tail : ℕ
  -- first_dirty_page and last_dirty_page are one page
  pub last_dirty : ℕ
  -- the address that the next `new access_page` returns
  pub unused : ℕ

-- What prepare_writeback_page makes of the list: the data chosen, an undefined state because a page
-- or its data is gone, or a loop with more turns than the fuel.
pub data Collected (A : Type 0) : Type 0 where
  chosen : List A → Collected A
  gone endless : Collected A

unfoldable pub put_first : {A : Type 0} → A → Collected A → Collected A
put_first a (chosen l) = chosen (a ∷ l)
put_first a gone = gone
put_first a endless = endless

-- The int `count`: the test `while(count && ...)` and --count
unfoldable pub is_zero : ℤ → Bool
is_zero (pos n) = n == 0
is_zero (negsuc n) = false

unfoldable pub pred : ℤ → ℤ
pred (pos zero) = negsuc 0
pred (pos (suc n)) = pos n
pred (negsuc n) = negsuc (suc n)

module _ {A : Type 0} where
  -- access_queue::access_queue: head and tail, each next to the other
  unfoldable pub new_queue : AccessQueue A
  unfolding assign
  new_queue = record {
    next = assign 0 1 (assign 1 0 (λ p. p));
    prev = assign 0 1 (assign 1 0 (λ p. p));
    item = λ p. none;
    next_dirty = assign 2 (some 2) (λ p. none);
    pre_dirty = assign 2 (some 2) (λ p. none);
    head = 0;
    tail = 1;
    last_dirty = 2;
    unused = 3;
  }

  -- list::insert_after
  unfoldable pub insert_after : ℕ → ℕ → AccessQueue A → AccessQueue A
  insert_after this elem q = record q {
    next = assign this elem (assign elem (q.next this) q.next);
    prev = assign (q.next this) elem (assign elem this q.prev);
  }

  -- access_page::is_in_dirty_queue
  unfoldable pub is_in_dirty_queue : ℕ → AccessQueue A → Bool
  is_in_dirty_queue page q = elim (q.next_dirty page) [ none ↦ false | some _ ↦ true ]

  -- access_queue::push_dirty_page: the page comes last
  unfoldable pub push_dirty_between : ℕ → Option ℕ → AccessQueue A → AccessQueue A
  push_dirty_between page none q = q
  push_dirty_between page (some before) q = record q {
    pre_dirty = assign q.last_dirty (some page) (assign page (some before) q.pre_dirty);
    next_dirty = assign before (some page) (assign page (some q.last_dirty) q.next_dirty);
  }

  unfoldable pub push_dirty_page : ℕ → AccessQueue A → AccessQueue A
  push_dirty_page page q =
      if is_in_dirty_queue page q then q else push_dirty_between page (q.pre_dirty q.last_dirty) q

  -- access_queue::del_dirty_page
  unfoldable pub unlink_dirty : ℕ → Option ℕ → Option ℕ → AccessQueue A → AccessQueue A
  unlink_dirty page (some before) (some after) q = record q {
    next_dirty = assign page none (assign before (some after) q.next_dirty);
    pre_dirty = assign page none (assign after (some before) q.pre_dirty);
  }
  unlink_dirty page before after q = q

  unfoldable pub del_dirty_page : ℕ → AccessQueue A → AccessQueue A
  del_dirty_page page q = unlink_dirty page (q.pre_dirty page) (q.next_dirty page) q

  -- access_queue::del
  unfoldable pub unlink_page : ℕ → AccessQueue A → AccessQueue A
  unlink_page page q = record q {
    prev = assign (q.next page) (q.prev page) q.prev;
    next = assign (q.prev page) (q.next page) q.next;
  }

  unfoldable pub del : ℕ → AccessQueue A → AccessQueue A
  del page q = del_dirty_page page (unlink_page page q)

  -- access_queue::touch, CBB_lru::access of a page
  unfoldable pub touch : ℕ → Bool → AccessQueue A → AccessQueue A
  touch page dirty q =
      let out : AccessQueue A = del page q in
      let back : AccessQueue A = insert_after (out.prev out.head) page out in
      if dirty || is_in_dirty_queue page q then push_dirty_page page back else back

  -- access_queue::erase
  unfoldable pub erase_page : ℕ → AccessQueue A → AccessQueue A
  erase_page page q =
      let out : AccessQueue A = del page q in insert_after (out.prev out.tail) page out

  -- access_queue::pop; none is the null pointer.
  unfoldable pub pop_page : AccessQueue A → Option ℕ × AccessQueue A
  pop_page q =
      if q.next q.tail == q.head
      then (none, q)
      else (some (q.next q.tail), record q { tail = q.next q.tail })

  -- access_queue::is_full
  unfoldable pub is_full : AccessQueue A → Bool
  is_full q = q.next q.head == q.tail

  -- access_queue::push, CBB_lru::access of data; the page is returned.
  unfoldable pub new_page : A → AccessQueue A → ℕ × AccessQueue A
  new_page a q =
      if is_full q
      then (
        q.unused,
        insert_after (q.prev q.head) q.unused
            (record q { item = assign q.unused (some a) q.item; unused = suc q.unused }),
      )
      else (q.head, record q { item = assign q.head (some a) q.item; head = q.next q.head })

  unfoldable pub push_page : A → Bool → AccessQueue A → ℕ × AccessQueue A
  push_page a dirty q =
      let (page, q') = new_page a q in (page, if dirty then push_dirty_page page q' else q')

  -- The loop of CBB_basic_swap::prepare_writeback_page: at most `count` dirty pages from the first
  -- one on whose data needs to be written back, all of them for a negative `count`. `need` is none
  -- where the data is gone. The fuel is the number of addresses.
  unfoldable pub collect_dirty : ℕ → (A → Option Bool) → ℤ → Option ℕ → AccessQueue A → Collected A
  collect_dirty zero need count page q = endless
  collect_dirty (suc fuel) need count none q = gone
  collect_dirty (suc fuel) need count (some page) q =
      if is_zero count || (page == q.last_dirty) then chosen [] else (elim (q.item page) [
        | none ↦ gone
        | some a ↦ (elim (need a) [
          | none ↦ gone
          | some wanted ↦ (elim wanted [
            | true ↦ put_first a (collect_dirty fuel need (pred count) (q.next_dirty page) q)
            | false ↦ collect_dirty fuel need count (q.next_dirty page) q
          ])
        ])
      ])

  unfoldable pub prepare_writeback_page : (A → Option Bool) → ℤ → AccessQueue A → Collected A
  prepare_writeback_page need count q =
      collect_dirty (suc q.unused) need count (q.next_dirty q.last_dirty) q
