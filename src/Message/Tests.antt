-- ===== src/Message/Tests.antt =====
-- A message of two numbers and a string between two tasks.
use huron_fs.Prelude.{◌+◌, ◌<◌, ◌≡◌, ◌↔◌, none, some, List, [], ◌∷◌, length, arith}
use huron_fs.Message.{room, IoTask, reset, transmit}
use huron_fs.Message.Machine.{little, little_endian, little_endian-IsLayout}
use huron_fs.Message.Items.{Item, AreItems, encode, push_items, pop_items}
use huron_fs.Message.RoundTrip.{read_through, pop_items-push_items, push_items-none_iff}

abbrev idle_task : IoTask
idle_task = record {
  buffer = λ i. 0;
  message_size = 0;
  current_point = 0;
  error = 0;
  id = 1;
  receiver_id = 2;
  sender_id = 1;
  mode = 0;
  extended_size = 0;
  send_buffer = [];
  receive_buffer = none;
  current_receive_buffer_ptr = none;
  extended_buffer = λ i. 0;
}

-- READ_FILE, a file number, and a name of two bytes
abbrev three_items : List Item
three_items = Item.number 4 10 ∷ Item.number 8 300 ∷ Item.string (97 ∷ 98 ∷ []) ∷ []

three_items-AreItems : AreItems three_items
three_items-AreItems = (
  omega arith,
  (
    omega arith,
    (((λ e. absurd (omega (arith, e)), (λ e. absurd (omega (arith, e)), tt)), omega arith), tt),
  ),
)

pop_items-push_items_example :
    (sent : IoTask) × (push_items little_endian three_items (reset idle_task) ≡ some sent)
    × (pop_items little_endian three_items (transmit sent idle_task)
        ≡ some (three_items, read_through (transmit sent idle_task)))
unfolding encode little
pop_items-push_items_example =
    pop_items-push_items little_endian three_items idle_task idle_task little_endian-IsLayout
      three_items-AreItems (omega arith)

push_items-none_iff_example :
    (push_items little_endian three_items idle_task ≡ none)
    ↔ (room < 0 + length (encode little_endian three_items))
push_items-none_iff_example = push_items-none_iff little_endian three_items idle_task (omega arith)
