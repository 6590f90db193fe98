-- ===== src/Sockets/Tests.antt =====
-- The socket helpers on concrete answers of the kernel.
use uart.Base.{◌≡◌, refl, true, false, some, [], ◌∷◌, pos, negsuc}
use uart.Sockets.{
  with_nonblock, setnonblocking, accept_new_client, sock_accept_handler, bind_server,
  init_socket_server,
}

flags_test : setnonblocking (pos 2) true ≡ some 2050
unfolding setnonblocking with_nonblock
flags_test = refl

-- A descriptor that is -1 is given to epoll by one and not by the other.
accept_test :
    (accept_new_client (negsuc 0) [] ≡ (negsuc 0, negsuc 0 ∷ []))
    × (sock_accept_handler (negsuc 0) [] ≡ [])
unfolding accept_new_client sock_accept_handler
accept_test = (refl, refl)

server_test : init_socket_server (some 7) true false (b's' ∷ []) ≡ (
  some (negsuc 0),
  record { sockfd = pos 7; removed = b's' ∷ []; bound = some (b's' ∷ []); listening = false },
)
unfolding init_socket_server bind_server
server_test = refl
