-- ===== src/Transport/Demux/Order.antt =====
-- Each reader of a demultiplexed connection of internal/transport/tcp.go gets its messages in order.
use goet.Prelude.{◌≤◌, ◌≡◌, refl, sym, ap, ◌∙◌, inl, inr, arith}
use goet.Prelude.{
  List, [], ◌∷◌, ◌++◌, append-nil, append_assoc, length, length-append, Bool, true, false,
  Bool-cases,
}
use goet.Prelude.{tests, if◌then◌else◌}
use goet.Protocol.Message.{Message, data_msg}
use goet.Session.{Received, message, read_error}
use goet.Transport.Demux.{
  channel_size, is_data, Event, arrives, gives_up, read_control, read_data, close, has_room,
  try_send, rest, is_ready, route, step, taken, Trace, trace_step, Reaches, here, next,
}

-- The messages, errors left out, that go to one of the channels.
unfoldable pub messages_for : Bool → List Received → List Message
messages_for b [] = []
messages_for b (read_error ∷ rs) = messages_for b rs
messages_for true (message m ∷ rs) =
    let others = messages_for true rs in if is_data (message m) then m ∷ others else others
messages_for false (message m ∷ rs) =
    let others = messages_for false rs in if is_data (message m) then others else m ∷ others

messages_for-append :
    (b : Bool) (xs ys : List Received)
    → messages_for b (xs ++ ys) ≡ messages_for b xs ++ messages_for b ys
unfolding messages_for
messages_for-append b [] ys = refl
messages_for-append b (read_error ∷ xs) ys = messages_for-append b xs ys
messages_for-append true (message m ∷ xs) ys = ground (arith, messages_for-append true xs ys)
messages_for-append false (message m ∷ xs) ys = ground (arith, messages_for-append false xs ys)

-- What a reader has got and what waits for it are what has arrived for it.
abbrev pub InOrder : Bool → List Received → List Received → List Received → Type 0
InOrder b got ch arrived = messages_for b (got ++ ch) ≡ messages_for b arrived

module _ (b : Bool) (got ch arrived : List Received) where
  push :
      (r : Received)
      → InOrder b got ch arrived
      → InOrder b got (ch ++ (r ∷ [])) (arrived ++ (r ∷ []))
  push r h =
      ap (messages_for b) (sym (append_assoc got ch (r ∷ [])))
      ∙ messages_for-append b (got ++ ch) (r ∷ [])
      ∙ ap (λ t. t ++ messages_for b (r ∷ [])) h
      ∙ sym (messages_for-append b arrived (r ∷ []))

  pass_by :
      (r : Received)
      → messages_for b (r ∷ []) ≡ []
      → InOrder b got ch arrived
      → InOrder b got ch (arrived ++ (r ∷ []))
  pass_by r none_here h =
      h
      ∙ sym (append-nil (messages_for b arrived))
      ∙ ap (λ t. messages_for b arrived ++ t) (sym none_here)
      ∙ sym (messages_for-append b arrived (r ∷ []))

  try_push :
      InOrder b got ch arrived
      → InOrder b got (try_send read_error ch) (arrived ++ (read_error ∷ []))
  try_push h = elim (Bool-cases (has_room ch)) [
    | inl room ↦ rw room (push read_error h)
    | inr full ↦ rw full (pass_by read_error (unfold messages_for in refl) h)
  ]

  try_bound : length ch ≤ channel_size → length (try_send read_error ch) ≤ channel_size
  try_bound h = elim (Bool-cases (has_room ch)) [
    | inl room ↦ rw room (omega (tests, room, length-append ch (read_error ∷ [])))
    | inr full ↦ rw full h
  ]

  push_bound : (r : Received) → has_room ch ≡ true → length (ch ++ (r ∷ [])) ≤ channel_size
  push_bound r room = omega (tests, room, length-append ch (r ∷ []))

take_one :
    (b : Bool) (got ch arrived : List Received)
    → InOrder b got ch arrived
    → InOrder b (got ++ (taken ch ∷ [])) (rest ch) arrived
unfolding messages_for
take_one b got [] arrived h =
    ap (messages_for b) (append-nil (got ++ (read_error ∷ [])))
    ∙ messages_for-append b got (read_error ∷ [])
    ∙ append-nil (messages_for b got)
    ∙ ap (messages_for b) (sym (append-nil got))
    ∙ h
take_one b got (r ∷ rs) arrived h = ap (messages_for b) (append_assoc got (r ∷ []) rs) ∙ h

rest_bound : (ch : List Received) → length ch ≤ channel_size → length (rest ch) ≤ channel_size
rest_bound [] h = h
rest_bound (r ∷ rs) h = omega (arith, h)

-- The messages that a reader has got and those that wait in its channel are those that arrived for it.
pub record IsRouted (t : Trace) : Type 0 where
  pub data_in_order : InOrder true t.got_data t.conn.data_ch t.arrived
  pub control_in_order : InOrder false t.got_control t.conn.control_ch t.arrived
  pub data_bound : length t.conn.data_ch ≤ channel_size
  pub control_bound : length t.conn.control_ch ≤ channel_size

arrives-IsRouted :
    (t : Trace) (m : Message)
    → IsRouted t
    → is_ready (arrives (message m)) t.conn ≡ true
    → IsRouted (trace_step (arrives (message m)) t)
unfolding trace_step step route is_ready messages_for
arrives-IsRouted t (data_msg seq payload) h ready =
    let room : has_room t.conn.data_ch ≡ true = ground arith in
    record {
      data_in_order = push true t.got_data t.conn.data_ch t.arrived _ h.data_in_order;
      control_in_order =
          pass_by false t.got_control t.conn.control_ch t.arrived _ refl h.control_in_order;
      data_bound = push_bound true t.got_data t.conn.data_ch t.arrived _ room;
      control_bound = h.control_bound;
    }
arrives-IsRouted t _ h ready =
    let room : has_room t.conn.control_ch ≡ true = ground arith in
    record {
      data_in_order = pass_by true t.got_data t.conn.data_ch t.arrived _ refl h.data_in_order;
      control_in_order = push false t.got_control t.conn.control_ch t.arrived _ h.control_in_order;
      data_bound = h.data_bound;
      control_bound = push_bound false t.got_control t.conn.control_ch t.arrived _ room;
    }

pub step-IsRouted :
    (t : Trace) (ev : Event) → IsRouted t → is_ready ev t.conn ≡ true → IsRouted (trace_step ev t)
unfolding trace_step step route
step-IsRouted t (arrives (message m)) h ready = arrives-IsRouted t m h ready
step-IsRouted t (arrives read_error) h ready = record {
  data_in_order = try_push true t.got_data t.conn.data_ch t.arrived h.data_in_order;
  control_in_order = try_push false t.got_control t.conn.control_ch t.arrived h.control_in_order;
  data_bound = try_bound true t.got_data t.conn.data_ch t.arrived h.data_bound;
  control_bound = try_bound false t.got_control t.conn.control_ch t.arrived h.control_bound;
}
step-IsRouted t gives_up h ready = record {
  data_in_order = h.data_in_order;
  control_in_order = h.control_in_order;
  data_bound = h.data_bound;
  control_bound = h.control_bound;
}
step-IsRouted t read_control h ready = record {
  data_in_order = h.data_in_order;
  control_in_order = take_one false t.got_control t.conn.control_ch t.arrived h.control_in_order;
  data_bound = h.data_bound;
  control_bound = rest_bound t.conn.control_ch h.control_bound;
}
step-IsRouted t read_data h ready = record {
  data_in_order = take_one true t.got_data t.conn.data_ch t.arrived h.data_in_order;
  control_in_order = h.control_in_order;
  data_bound = rest_bound t.conn.data_ch h.data_bound;
  control_bound = h.control_bound;
}
step-IsRouted t close h ready = record {
  data_in_order = h.data_in_order;
  control_in_order = h.control_in_order;
  data_bound = h.data_bound;
  control_bound = h.control_bound;
}

-- Whatever the order of arrivals, reads and the close: each reader gets the messages of its kind, each of them
-- once and in the order of their arrival, and no channel holds more than it has room for.
pub Reaches-IsRouted : (t : Trace) → Reaches t → IsRouted t
Reaches-IsRouted _ here = record {
  data_in_order = refl;
  control_in_order = refl;
  data_bound = omega arith;
  control_bound = omega arith;
}
Reaches-IsRouted _ (next t ev before ready) = step-IsRouted t ev (Reaches-IsRouted t before) ready
