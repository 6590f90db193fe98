-- ===== src/TestMode.antt =====
-- The broadcasts of the test mode, src/uartd_test_mode.c. What the kernel answers is an argument;
-- `none` is a fault, a text that is written past the end of its buffer.
pub mod Sockets
pub mod Commands
mod Tests
use uart.Base.{
  ℕ, zero, suc, ◌+◌, ◌≡◌, Bool, true, false, ◌&&◌, Option, none, some, List, [], ◌∷◌, ◌++◌, length,
  leb, ◌==◌, if◌then◌else◌, ◌>>=◌, ℤ, pos, negsuc, int_eq, is_negative,
}
use uart.Daemon.Text.{decimal, two}

-- The answers of the kernel to the calls for one interface.
pub record Answers : Type 0 where
  -- the descriptor that `socket` returns, `none` for -1
  pub socket : Option ℕ
  pub set_broadcast : Bool
  -- SIOCGIFFLAGS succeeds and the interface is up
  pub is_up : Bool
  pub bind_device : Bool
  -- what each call of `sendto` returns
  pub sendto : ℕ → ℤ

-- `sin_addr` and `sin_port` of a destination.
pub record Address : Type 0 where
  pub addr : ℕ
  pub port : ℕ

-- INADDR_BROADCAST and SEND_PORT
abbrev pub everyone : Address
everyone = record { addr = 4294967295; port = 8060 }

-- A datagram that the kernel took, with the interface that its socket was bound to.
pub record Datagram : Type 0 where
  pub interface : List ℕ
  pub destination : Address
  pub text : List ℕ

-- The globals `sockfd` and `dest_address`, the descriptors that are open, the interface that
-- SO_BINDTODEVICE last bound the socket in `sockfd` to, and the datagrams that the kernel took.
pub record Net : Type 0 where
  pub sockfd : ℤ
  pub opened : List ℤ
  pub bound : List ℕ
  pub dest_address : Address
  pub sent : List Datagram

-- The datagram that `sendto` hands over.
abbrev pub datagram : Net → (buffer : List ℕ) → Datagram
datagram s buffer = record { interface = s.bound; destination = s.dest_address; text = buffer }

-- IFNAMSIZ
abbrev pub name_size : ℕ
name_size = 16

abbrev pub remove : ℤ → List ℤ → List ℤ
remove fd [] = []
remove fd (x ∷ xs) = if int_eq fd x then xs else x ∷ remove fd xs

-- `close(sockfd); sockfd = -1;`
abbrev pub close_fd : Net → Net
close_fd s = record s { sockfd = negsuc 0; opened = remove s.sockfd s.opened }

-- From `socket` on, with the new descriptor in `s`. The destination is filled in at the end.
unfoldable pub set_up_socket : Answers → (ifname : List ℕ) → Net → Option (ℤ × Net)
set_up_socket a ifname s =
    if a.set_broadcast
    then if leb (length ifname) name_size
      then if a.is_up && a.bind_device
        then some (pos 0, record s { bound = ifname; dest_address = everyone })
        else some (negsuc 0, close_fd s)
      else none
    else some (negsuc 0, close_fd s)

unfoldable pub open_socket : Answers → (ifname : List ℕ) → Option ℕ → Net → Option (ℤ × Net)
open_socket a ifname none s = some (negsuc 0, record s { sockfd = negsuc 0 })
open_socket a ifname (some fd) s =
    set_up_socket a ifname (record s { sockfd = pos fd; opened = pos fd ∷ s.opened })

abbrev pub create_broadcast_socket : Answers → (ifname : List ℕ) → Net → Option (ℤ × Net)
create_broadcast_socket a ifname s = open_socket a ifname a.socket s

-- The rounds of the loop from `i` on; `cnt` is what the last `sendto` returned.
unfoldable pub send_loop : Answers → (buffer : List ℕ) → (rounds i : ℕ) → (cnt : ℤ) → Net → ℤ × Net
send_loop a buffer zero i cnt s = (cnt, s)
send_loop a buffer (suc k) i cnt s =
    send_loop a buffer k (i + 1) (a.sendto i)
      (if is_negative (a.sendto i) then s else record s { sent = s.sent ++ datagram s buffer ∷ [] })

-- The part of `send_broadcast_to_interface` behind the opening of the socket.
abbrev pub finish : ℤ × Net → ℤ × Net
finish (cnt, s) = (if is_negative cnt then negsuc 0 else pos 0, close_fd s)

unfoldable pub send_on : Answers → (buffer : List ℕ) → ℤ × Net → ℤ × Net
send_on a buffer (pos zero, s) = finish (send_loop a buffer 10 0 (pos 0) s)
send_on a buffer (pos (suc n), s) = (negsuc 0, s)
send_on a buffer (negsuc n, s) = (negsuc 0, s)

-- The socket is opened if `sockfd` is -1.
unfoldable pub send_broadcast_to_interface :
    Answers → (buffer ifname : List ℕ) → Net → Option (ℤ × Net)
send_broadcast_to_interface a buffer ifname s = do
  made ← if int_eq s.sockfd (negsuc 0) then create_broadcast_socket a ifname s else some (pos 0, s)
  some (send_on a buffer made)

-- "br0" and "br1"
abbrev pub br0 : List ℕ
br0 = b'b' ∷ b'r' ∷ b'0' ∷ []

abbrev pub br1 : List ℕ
br1 = b'b' ∷ b'r' ∷ b'1' ∷ []

-- `sprintf(mac_cmd, "%s%02d", mac, cmd)` into 20 bytes, for a `cmd` that is not negative.
unfoldable pub mac_cmd : (mac : List ℕ) (cmd : ℕ) → Option (List ℕ)
mac_cmd mac cmd = if leb (length (mac ++ two cmd) + 1) 20 then some (mac ++ two cmd) else none

abbrev pub either_zero : ℤ → ℤ → ℤ
either_zero r0 r1 =
    if int_eq r0 (pos 0) then pos 0 else if int_eq r1 (pos 0) then pos 0 else negsuc 0

-- `test_mode` says whether /tmp/test_mode is there; `mac` is what `cdb_get` gives.
unfoldable pub send_cmd_to_server :
    (test_mode : Bool) (mac : List ℕ) (a0 a1 : Answers) (cmd : ℕ) → Net → Option (ℤ × Net)
send_cmd_to_server false mac a0 a1 cmd s = some (negsuc 0, s)
send_cmd_to_server true mac a0 a1 cmd s = do
  text ← mac_cmd mac cmd
  (r0, s') ← send_broadcast_to_interface a0 text br0 s
  (r1, s'') ← send_broadcast_to_interface a1 text br1 s'
  some (either_zero r0 r1, s'')
