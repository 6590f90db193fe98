-- ===== src/TestMode/Sockets.antt =====
-- What a broadcast of src/uartd_test_mode.c leaves: its socket closed, and what was sent.
use uart.Base.{
  is_negative, ℕ, zero, suc, ◌+◌, ◌≤◌, ◌<◌, ◌≡◌, refl, sym, ap, ap₂, ◌∙◌, ◌⊎◌, inl, inr, true,
  false, Option, none, some, List, [], ◌∷◌, ◌++◌, arith, length, replicate, append_assoc,
  append-nil, leb, ◌&&◌, if◌then◌else◌, Bool-cases, ℤ, pos, negsuc, int_eq, int_eq_refl,
}
use uart.TestMode.{
  Answers, Datagram, Net, everyone, datagram, remove, send_loop, finish, send_on, set_up_socket,
  open_socket, send_broadcast_to_interface, name_size, close_fd,
}

-- The datagram of a text to everyone on an interface.
abbrev pub on : (interface text : List ℕ) → Datagram
on interface text = record { interface = interface; destination = everyone; text = text }

-- `n` copies of the datagram were taken by the kernel.
pub record SentBy (buffer : List ℕ) (rounds : ℕ) (s : Net) (out : ℤ × Net) : Type 0 where
  pub n : ℕ
  pub few : n ≤ rounds
  pub fd : out.1.sockfd ≡ s.sockfd
  pub opened : out.1.opened ≡ s.opened
  pub sent : out.1.sent ≡ s.sent ++ replicate n (datagram s buffer)
  pub last : 0 < rounds → is_negative out.0 ≡ false → 0 < n

-- Where a call was refused, a success at the end is that of a later call.
later_taken :
    (a : Answers) (buffer : List ℕ) (k i : ℕ) (s : Net)
    → is_negative (a.sendto i) ≡ true
    → (rest : SentBy buffer k s (send_loop a buffer k (i + 1) (a.sendto i) s))
    → is_negative (send_loop a buffer k (i + 1) (a.sendto i) s).0 ≡ false
    → 0 < rest.n
unfolding send_loop
later_taken a buffer zero i s refused rest e = absurd cc
later_taken a buffer (suc k) i s refused rest e = rest.last (omega arith) e

send_loop-SentBy :
    (a : Answers) (buffer : List ℕ) (k i : ℕ) (cnt : ℤ) (s : Net)
    → SentBy buffer k s (send_loop a buffer k i cnt s)
unfolding send_loop
send_loop-SentBy a buffer zero i cnt s = record {
  n = 0;
  few = omega arith;
  fd = refl;
  opened = refl;
  sent = sym (append-nil s.sent);
  last = λ h _. absurd (omega (arith, h));
}
send_loop-SentBy a buffer (suc k) i cnt s = elim (Bool-cases (is_negative (a.sendto i))) [
  | inl refused ↦
      let rest = send_loop-SentBy a buffer k (i + 1) (a.sendto i) s in
      rw refused (record {
        n = rest.n;
        few = omega (arith, rest.few);
        fd = rest.fd;
        opened = rest.opened;
        sent = rest.sent;
        last = λ _ e. later_taken a buffer k i s refused rest e;
      })
  | inr taken ↦
      let s1 : Net = record s { sent = s.sent ++ datagram s buffer ∷ [] } in
      let rest = send_loop-SentBy a buffer k (i + 1) (a.sendto i) s1 in
      rw taken (record {
        n = suc rest.n;
        few = omega (arith, rest.few);
        fd = rest.fd;
        opened = rest.opened;
        sent =
            rest.sent
            ∙ append_assoc s.sent (datagram s buffer ∷ []) (replicate rest.n (datagram s buffer));
        last = λ _ _. omega arith;
      })
]

-- What a call leaves of the sockets: none of its own; and what it sent, on one interface.
pub record Closed (buffer ifname : List ℕ) (s : Net) (out : ℤ × Net) : Type 0 where
  pub n : ℕ
  pub few : n ≤ 10
  pub fd : out.1.sockfd ≡ negsuc 0
  pub opened : out.1.opened ≡ s.opened
  pub sent : out.1.sent ≡ s.sent ++ replicate n (on ifname buffer)
  pub result : ((out.0 ≡ pos 0) × (0 < n)) ⊎ (out.0 ≡ negsuc 0)

remove-first : (fd : ℤ) (fds : List ℤ) → remove fd (fd ∷ fds) ≡ fds
remove-first fd fds = rw (int_eq_refl fd)

verdict :
    (cnt : ℤ) (n : ℕ)
    → (is_negative cnt ≡ false → 0 < n)
    → (((if is_negative cnt then negsuc 0 else pos 0) ≡ pos 0) × (0 < n))
      ⊎ ((if is_negative cnt then negsuc 0 else pos 0) ≡ negsuc 0)
verdict (pos k) n h = inl (refl, h refl)
verdict (negsuc k) n h = inr refl

-- The sends and the closing of the socket `fd`, which is the newest.
finish-Closed :
    (a : Answers) (buffer ifname : List ℕ) (fd : ℤ) (s : Net)
    → Closed buffer ifname s (
        finish (
          send_loop a buffer 10 0 (pos 0) (record s {
            sockfd = fd;
            opened = fd ∷ s.opened;
            bound = ifname;
            dest_address = everyone;
          })))
finish-Closed a buffer ifname fd s =
    let s1 : Net = record s {
      sockfd = fd;
      opened = fd ∷ s.opened;
      bound = ifname;
      dest_address = everyone;
    } in
    let all = send_loop-SentBy a buffer 10 0 (pos 0) s1 in
    record {
      n = all.n;
      few = all.few;
      fd = refl;
      opened = ap₂ remove all.fd all.opened ∙ remove-first fd s.opened;
      sent = all.sent;
      result = verdict (send_loop a buffer 10 0 (pos 0) s1).0 all.n (all.last (omega arith));
    }

opened-Closed :
    (a : Answers) (buffer ifname : List ℕ) (fd : ℤ) (s : Net)
    → Closed buffer ifname s (
        send_on a buffer (
          pos 0,
          record s { sockfd = fd; opened = fd ∷ s.opened; bound = ifname; dest_address = everyone },
        ))
unfolding send_on
opened-Closed a buffer ifname fd s = finish-Closed a buffer ifname fd s

-- A call that opened no socket, or closed it at once.
failed-Closed :
    (a : Answers) (buffer ifname : List ℕ) (s s1 : Net)
    → s1.sockfd ≡ negsuc 0
    → s1.opened ≡ s.opened
    → s1.sent ≡ s.sent
    → Closed buffer ifname s (send_on a buffer (negsuc 0, s1))
unfolding send_on
failed-Closed a buffer ifname s s1 fd opened sent = record {
  n = 0;
  few = omega arith;
  fd = fd;
  opened = opened;
  sent = sent ∙ sym (append-nil s.sent);
  result = inr refl;
}

-- What is made of the socket that `socket` returns.
module _ (a : Answers) (buffer ifname : List ℕ) (s : Net) (none_open : s.sockfd ≡ negsuc 0)
    (h : length ifname ≤ name_size) where
  abbrev Made : Option (ℤ × Net) → Type 0
  Made made = (m : ℤ × Net) × (made ≡ some m) × Closed buffer ifname s (send_on a buffer m)

  set_up_socket-Made :
      (fd : ℤ) → Made (set_up_socket a ifname (record s { sockfd = fd; opened = fd ∷ s.opened }))
  unfolding set_up_socket
  set_up_socket-Made fd =
      let s1 : Net = record s { sockfd = fd; opened = fd ∷ s.opened } in
      let fits : leb (length ifname) name_size ≡ true = ground arith in
      let closed =
        failed-Closed a buffer ifname s (close_fd s1) refl (remove-first fd s.opened) refl in
      let sends = opened-Closed a buffer ifname fd s in
      elim (Bool-cases a.set_broadcast) [
        | inl wide ↦ elim (Bool-cases (a.is_up && a.bind_device)) [
          | inl bound ↦ (
            (pos 0, record s1 { bound = ifname; dest_address = everyone }),
            rw (wide, fits, bound),
            sends,
          )
          | inr unbound ↦ ((negsuc 0, close_fd s1), rw (wide, fits, unbound), closed)
        ]
        | inr narrow ↦ ((negsuc 0, close_fd s1), rw narrow, closed)
      ]

  open_socket-Made : (got : Option ℕ) → Made (open_socket a ifname got s)
  unfolding open_socket
  open_socket-Made none =
      (_, refl, failed-Closed a buffer ifname s (record s { sockfd = negsuc 0 }) refl refl refl)
  open_socket-Made (some fd) = set_up_socket-Made (pos fd)

-- Where `sockfd` is -1, a broadcast on an interface whose name has at most 16 bytes does not fault. It
-- leaves `sockfd` at -1 and the same descriptors open, whatever the kernel answers, and hands over the
-- text at most ten times, on that interface, and nothing else; it returns 0, and then the text was taken at least once, or -1.
pub send_broadcast-Closed :
    (a : Answers) (buffer ifname : List ℕ) (s : Net)
    → s.sockfd ≡ negsuc 0
    → length ifname ≤ name_size
    → (out : ℤ × Net) × (send_broadcast_to_interface a buffer ifname s ≡ some out)
      × Closed buffer ifname s out
unfolding send_broadcast_to_interface
send_broadcast-Closed a buffer ifname s none_open h =
    let shut : int_eq s.sockfd (negsuc 0) ≡ true =
      ap (λ fd. int_eq fd (negsuc 0)) none_open ∙ int_eq_refl (negsuc 0) in
    let (m, made, closed) = open_socket-Made a buffer ifname s none_open h a.socket in
    rw (shut, made) (send_on a buffer m, refl, closed)
