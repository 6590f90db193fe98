-- ===== src/Daemon/Wakeup.antt =====
-- The interleavings of one queue of src/uart_start.c with its consumer (`data_process` on
-- `G_recv_linklist`, `send_out_handler` on `G_send_linklist`) and its producers (the receiving
-- handlers, `ready_send_data`). The operations of the list are atomic, each under the list's own
-- mutex; the producers signal without the mutex that the consumer waits with.
use uart.Base.{ℕ, ◌+◌, ◌-◌, ◌<◌, ◌≡◌, refl, ◌⊎◌, inl, inr, List, [], ◌∷◌, ◌++◌, arith}

-- Where the consumer is in a round of its loop.
pub data Place : Type 0 where
  -- before the mutex
  starts : Place
  -- behind `is_singlelinklist_empty` on an empty list, before `pthread_cond_wait`
  found_empty : Place
  -- in `pthread_cond_wait`
  asleep : Place
  -- before `singlelinklist_pop_node`
  pops : Place

pub record Channel (J : Type 0) : Type 0 where
  pub queue : List J
  pub place : Place
  -- producers between `singlelinklist_insert_node` and `pthread_cond_signal`
  pub to_signal : ℕ
  -- history: the messages inserted and those taken, each in order
  pub inserted : List J
  pub taken : List J

abbrev pub after_test : {J : Type 0} → List J → Place
after_test [] = found_empty
after_test (_ ∷ _) = pops

-- A signal wakes the consumer if it waits, and is forgotten otherwise.
abbrev pub signalled : Place → Place
signalled starts = starts
signalled found_empty = found_empty
signalled asleep = pops
signalled pops = pops

unfoldable pub insert_step : {J : Type 0} → J → Channel J → Channel J
insert_step j s = record s {
  queue = s.queue ++ j ∷ [];
  to_signal = s.to_signal + 1;
  inserted = s.inserted ++ j ∷ [];
}

unfoldable pub signal_step : {J : Type 0} → Channel J → Channel J
signal_step s = record s { to_signal = s.to_signal - 1; place = signalled s.place }

unfoldable pub test_step : {J : Type 0} → Channel J → Channel J
test_step s = record s { place = after_test s.queue }

-- The list's operation on an empty list takes nothing.
abbrev pub popped_off : {J : Type 0} → List J → List J × List J
popped_off [] = ([], [])
popped_off (j ∷ js) = (j ∷ [], js)

unfoldable pub pop_step : {J : Type 0} → Channel J → Channel J
pop_step s =
    let (js, rest) = popped_off s.queue in
    record s { queue = rest; place = starts; taken = s.taken ++ js }

pub data Move {J : Type 0} (s u : Channel J) : Type 0 where
  inserts : (j : J) → u ≡ insert_step j s → Move s u
  signals : 0 < s.to_signal → u ≡ signal_step s → Move s u
  tests : s.place ≡ starts → u ≡ test_step s → Move s u
  falls_asleep : s.place ≡ found_empty → u ≡ record s { place = asleep } → Move s u
  wakes_unasked : s.place ≡ asleep → u ≡ record s { place = pops } → Move s u
  takes : s.place ≡ pops → u ≡ pop_step s → Move s u

pub data Run {J : Type 0} (s : Channel J) : Channel J → Type 0 where
  here : Run s s
  next : {t u : Channel J} → Run s t → Move t u → Run s u

-- The empty queue, before the consumer's first round.
abbrev pub opened : {J : Type 0} → Channel J
opened = record { queue = []; place = starts; to_signal = 0; inserted = []; taken = [] }

-- A message can be inserted and signalled between the consumer's test and its wait: the consumer
-- then sleeps, the message is in the queue, and no signal is still to come.
pub lost_wakeup :
    {J : Type 0} (j : J)
    → (s : Channel J) × Run opened s × (s.place ≡ asleep) × (s.queue ≡ j ∷ []) × (s.to_signal ≡ 0)
unfolding insert_step signal_step test_step
lost_wakeup j = (
  record { queue = j ∷ []; place = asleep; to_signal = 0; inserted = j ∷ []; taken = [] },
  next (next (next (next here (tests refl refl)) (inserts j refl)) (signals (omega arith) refl))
      (falls_asleep refl refl),
  refl,
  refl,
  refl,
)

-- Where the consumer sleeps and no signal is still to come, the only steps are that another
-- message is inserted and that the wait returns unasked.
pub lost_wakeup-stuck :
    {J : Type 0} {s u : Channel J}
    → s.place ≡ asleep
    → s.to_signal ≡ 0
    → Move s u
    → ((j : J) × (u ≡ insert_step j s)) ⊎ (u ≡ record s { place = pops })
lost_wakeup-stuck sleeps none_left (inserts j e) = inl (j, e)
lost_wakeup-stuck sleeps none_left (signals p e) = absurd (omega (arith, none_left))
lost_wakeup-stuck sleeps none_left (tests p e) = absurd cc
lost_wakeup-stuck sleeps none_left (falls_asleep p e) = absurd cc
lost_wakeup-stuck sleeps none_left (wakes_unasked p e) = inr e
lost_wakeup-stuck sleeps none_left (takes p e) = absurd cc
