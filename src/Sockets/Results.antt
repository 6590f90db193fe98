-- ===== src/Sockets/Results.antt =====
-- What the helpers of src/socket_server.c and src/epoll_server.c leave.
use uart.Base.{
  negsuc, ℕ, ◌/◌, ◌%◌, ◌≡◌, refl, true, false, Bool, Option, none, some, List, if◌then◌else◌, arith,
  ℤ, pos, negsuc,
}
use uart.Sockets.{with_nonblock, setnonblocking, bind_server, init_socket_server}

-- The bit of O_NONBLOCK is set, the bits below it and above it are kept, and a second call changes nothing.
pub setnonblocking_twice :
    (opts : ℕ)
    → ((with_nonblock opts / 2048) % 2 ≡ 1)
      × (with_nonblock opts % 2048 ≡ opts % 2048)
      × (with_nonblock opts / 4096 ≡ opts / 4096)
      × (setnonblocking (pos (with_nonblock opts)) true ≡ setnonblocking (pos opts) true)
unfolding with_nonblock setnonblocking
setnonblocking_twice opts = (ground arith, ground arith, ground arith, ground arith)

abbrev pub descriptor : Option ℕ → ℤ
descriptor none = negsuc 0
descriptor (some fd) = pos fd

-- The call gives -1 exactly where the server is not listening, and no value at all where it is; and
-- a socket that was made is left open in every case.
pub init_socket_server_lem :
    (got : Option ℕ) (bind_ok listen_ok : Bool) (name : List ℕ)
    → ((init_socket_server got bind_ok listen_ok name).0 ≡ (
        if (init_socket_server got bind_ok listen_ok name).1.listening
        then none
        else some (negsuc 0)))
      × ((init_socket_server got bind_ok listen_ok name).1.sockfd ≡ descriptor got)
unfolding init_socket_server bind_server
init_socket_server_lem none bind_ok listen_ok name = (refl, refl)
init_socket_server_lem (some fd) false listen_ok name = (refl, refl)
init_socket_server_lem (some fd) true false name = (refl, refl)
init_socket_server_lem (some fd) true true name = (refl, refl)
