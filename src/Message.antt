-- ===== src/Message.antt =====
-- src/Common/include/CBB_IO_task.h and src/Common/src/CBB_IO_task.cpp: the buffer of a message,
-- onto which a task pushes values and strings and from which its receiver pops them.
--
-- `buffer` is basic_message, the part of message_buffer behind its meta data; the two ids and the
-- two sizes stand before it and are fields here. An integer is its bit pattern. A write or a read
-- behind the end of the buffer is `none`.
pub mod Machine
pub mod Items
pub mod Push
pub mod RoundTrip
mod Tests
unfoldable pub use huron_fs.Prelude.Options.{◌>>=◌}
use huron_fs.Prelude.{
  ℕ, zero, suc, ◌+◌, ◌-◌, ◌*◌, ◌/◌, ◌≤◌, Bool, Option, none, some, List, [], ◌∷◌, ◌++◌, length, leb,
  ◌==◌, if◌then◌else◌,
}
use huron_fs.Prelude.Int.{ℤ, pos, negsuc}
use huron_fs.Prelude.Memory.{Memory, put, slice}
use Machine.{Layout}

-- MAX_BASIC_MESSAGE_SIZE - MESSAGE_META_OFF: 4 KB less two int and two size_t
abbrev pub room : ℕ
room = 4000 - 24

-- MAX_EXTENDED_MESSAGE_SIZE, 5 MB
abbrev pub extended_room : ℕ
extended_room = 5000000

-- send_buffer_element
pub record SendBufferElement : Type 0 where
  pub bytes : Memory
  pub size : ℕ

-- basic_IO_task and extended_IO_task; the receive buffer is none while it is the null pointer.
pub record IoTask : Type 0 where
  pub buffer : Memory
  pub message_size : ℕ
  pub current_point : ℕ
  pub error : ℕ
  pub id : ℕ
  pub receiver_id : ℕ
  pub sender_id : ℕ
  pub mode : ℕ
  pub extended_size : ℕ
  pub send_buffer : List SendBufferElement
  pub receive_buffer : Option Memory
  pub current_receive_buffer_ptr : Option ℕ
  pub extended_buffer : Memory

-- basic_IO_task::reset and extended_IO_task::reset
abbrev pub start_of : Option Memory → Option ℕ
start_of none = none
start_of (some m) = some 0

unfoldable pub reset : IoTask → IoTask
reset t = record t {
  message_size = 0;
  current_point = 0;
  error = 0;
  extended_size = 0;
  send_buffer = [];
  current_receive_buffer_ptr = start_of t.receive_buffer;
}

-- basic_IO_task::do_push
unfoldable pub do_push : List ℕ → IoTask → Option IoTask
do_push bytes t =
    if leb (t.message_size + length bytes) room
    then some (record t {
      buffer = put t.buffer t.message_size bytes;
      message_size = t.message_size + length bytes;
    })
    else none

-- basic_IO_task::do_pop, which hands out a pointer to the bytes
unfoldable pub do_pop : ℕ → IoTask → Option (List ℕ × IoTask)
do_pop num t =
    if leb (t.current_point + num) room
    then some
        (slice t.buffer t.current_point num, record t { current_point = t.current_point + num })
    else none

-- basic_IO_task::swap_sender_receiver
unfoldable pub swap_sender_receiver : IoTask → IoTask
swap_sender_receiver t = record t { receiver_id = t.sender_id; sender_id = t.id }

module _ (layout : Layout) where
  -- basic_IO_task::push_back of an integer of `width` bytes
  unfoldable pub push_back : ℕ → ℕ → IoTask → Option IoTask
  push_back width value t = do_push (layout.bytes_of width value) t

  -- basic_IO_task::push_back_string; the string has no NUL, and is pushed with its NUL.
  unfoldable pub push_back_string : List ℕ → IoTask → Option IoTask
  push_back_string string t = do
    t' ← push_back 8 (length string + 1) t
    do_push (string ++ 0 ∷ []) t'

  -- basic_IO_task::pop of an integer of `width` bytes
  unfoldable pub pop : ℕ → IoTask → Option (ℕ × IoTask)
  pop width t = do (bytes, t') ← do_pop width t; some (layout.value_of bytes, t')

  -- basic_IO_task::pop_string, the bytes that the length counts
  unfoldable pub pop_string : IoTask → Option (List ℕ × IoTask)
  pop_string t = do (len, t') ← pop 8 t; do_pop len t'

-- The string at a `char*`: the bytes before the first NUL.
unfoldable pub c_string : List ℕ → List ℕ
c_string [] = []
c_string (b ∷ bs) = let rest = c_string bs in if b == 0 then [] else b ∷ rest

-- The receiver's buffer gets the first get_total_message_size bytes of the sender's.
unfoldable pub transmit : IoTask → IoTask → IoTask
transmit from to = record to {
  buffer = put to.buffer 0 (slice from.buffer 0 from.message_size);
  message_size = from.message_size;
  current_point = 0;
  receiver_id = from.receiver_id;
  sender_id = from.sender_id;
  extended_size = from.extended_size;
}
