-- ===== src/Sockets.antt =====
-- The helpers of src/socket_server.c and src/epoll_server.c, and `sock_accept_handler` of
-- src/uart_start.c, which use them where NEED_SOCK_SERVER is set. What the kernel answers is an
-- argument.
pub mod Results
pub mod Select
mod Tests
use uart.Base.{
  ℕ, ◌+◌, ◌/◌, ◌%◌, Bool, true, false, Option, none, some, List, [], ◌∷◌, ◌++◌, take, ◌==◌,
  if◌then◌else◌, ℤ, pos, negsuc, is_negative,
}

-- `opts | O_NONBLOCK`, for a word that is not negative: the bit 2^11.
unfoldable pub with_nonblock : ℕ → ℕ
with_nonblock opts = if (opts / 2048) % 2 == 0 then opts + 2048 else opts

-- The flags of the descriptor behind the call; `none` where the process exits. `opts` is what
-- F_GETFL gives, and `set_ok` says whether F_SETFL succeeds.
unfoldable pub setnonblocking : (opts : ℤ) → (set_ok : Bool) → Option ℕ
setnonblocking (negsuc n) set_ok = none
setnonblocking (pos opts) false = none
setnonblocking (pos opts) true = some (with_nonblock opts)

-- The result, and the descriptors that `epoll_ctl` is asked to watch; `accepted` is what `accept`
-- returns.
unfoldable pub accept_new_client : (accepted : ℤ) → (watched : List ℤ) → ℤ × List ℤ
accept_new_client accepted watched = (accepted, watched ++ accepted ∷ [])

unfoldable pub sock_accept_handler : (accepted : ℤ) → (watched : List ℤ) → List ℤ
sock_accept_handler accepted watched =
    if is_negative accepted then watched else watched ++ accepted ∷ []

-- What the making of a server leaves: `*sockfd`, the files that are removed and bound, and whether
-- the socket is listening.
pub record Server : Type 0 where
  pub sockfd : ℤ
  pub removed : List ℕ
  pub bound : Option (List ℕ)
  pub listening : Bool

-- From `bind` on. `sun_path` has 108 bytes, of which the name gets 107. The result is `none` where
-- the function ends without one.
unfoldable pub bind_server :
    (bind_ok listen_ok : Bool) → (name : List ℕ) → (fd : ℕ) → Option ℤ × Server
bind_server false listen_ok name fd =
    (some (negsuc 0), record { sockfd = pos fd; removed = name; bound = none; listening = false })
bind_server true false name fd = (
  some (negsuc 0),
  record { sockfd = pos fd; removed = name; bound = some (take 107 name); listening = false },
)
bind_server true true name fd = (
  none,
  record { sockfd = pos fd; removed = name; bound = some (take 107 name); listening = true },
)

-- `got` is what `socket` returns, `none` for -1.
unfoldable pub init_socket_server :
    (got : Option ℕ) → (bind_ok listen_ok : Bool) → (name : List ℕ) → Option ℤ × Server
init_socket_server none bind_ok listen_ok name =
    (some (negsuc 0), record { sockfd = negsuc 0; removed = name; bound = none; listening = false })
init_socket_server (some fd) bind_ok listen_ok name = bind_server bind_ok listen_ok name fd
