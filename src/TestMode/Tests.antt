-- ===== src/TestMode/Tests.antt =====
-- A command in test mode on concrete answers of the kernel.
use uart.Base.{◌≡◌, refl, true, false, some, [], ◌∷◌, arith, ℤ, pos, negsuc}
use uart.TestMode.{Answers, Net, send_cmd_to_server}
use uart.TestMode.Commands.{Broadcast, send_cmd_to_server-Broadcast}

-- The first interface takes what it is given; the second is down.
abbrev up : Answers
up = record {
  socket = some 8;
  set_broadcast = true;
  is_up = true;
  bind_device = true;
  sendto = λ i. pos 4;
}

abbrev down : Answers
down = record {
  socket = some 8;
  set_broadcast = true;
  is_up = false;
  bind_device = true;
  sendto = λ i. pos 4;
}

abbrev quiet : Net
quiet = record {
  sockfd = negsuc 0;
  opened = pos 4 ∷ [];
  bound = [];
  dest_address = record { addr = 0; port = 0 };
  sent = [];
}

-- "ab" and the command 7
send_cmd_to_server-Broadcast_example :
    (out : ℤ × Net) × (send_cmd_to_server true (b'a' ∷ b'b' ∷ []) up down 7 quiet ≡ some out)
    × Broadcast (b'a' ∷ b'b' ∷ b'0' ∷ b'7' ∷ []) quiet out
send_cmd_to_server-Broadcast_example =
    send_cmd_to_server-Broadcast (b'a' ∷ b'b' ∷ []) up down 7 quiet (omega arith) (omega arith) refl

no_test_mode_test : send_cmd_to_server false [] up down 7 quiet ≡ some (negsuc 0, quiet)
unfolding send_cmd_to_server
no_test_mode_test = refl
