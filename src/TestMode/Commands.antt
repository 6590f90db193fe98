-- ===== src/TestMode/Commands.antt =====
-- `send_cmd_to_server` of src/uartd_test_mode.c, on both interfaces.
use uart.Base.{
  ℕ, ◌+◌, ◌≤◌, ◌<◌, ◌≡◌, ap, ◌∙◌, ◌⊎◌, inl, inr, true, some, List, ◌++◌, arith, length,
  length-append, replicate, append_assoc, leb, ℤ, pos, negsuc,
}
use uart.TestMode.{Answers, Net, mac_cmd, send_cmd_to_server, br0, br1, either_zero}
use uart.TestMode.Sockets.{Closed, on, send_broadcast-Closed}
use uart.Daemon.Text.{two_lem, digits2}

either_result :
    (r r' : ℤ) (n n' : ℕ)
    → ((r ≡ pos 0) × (0 < n)) ⊎ (r ≡ negsuc 0)
    → ((r' ≡ pos 0) × (0 < n')) ⊎ (r' ≡ negsuc 0)
    → ((either_zero r r' ≡ pos 0) × (0 < n + n')) ⊎ (either_zero r r' ≡ negsuc 0)
either_result r r' n n' (inl (e, h)) other = inl (rw e, omega (arith, h))
either_result r r' n n' (inr e) (inl (e', h)) = inl (rw (e, e'), omega (arith, h))
either_result r r' n n' (inr e) (inr e') = inr (rw (e, e'))

-- A broadcast of `text`: at most ten copies are taken, to everyone, on br0 and then at most ten on br1, and at
-- least one of all where the result is 0.
pub record Broadcast (text : List ℕ) (s : Net) (out : ℤ × Net) : Type 0 where
  pub n0 : ℕ
  pub n1 : ℕ
  pub few0 : n0 ≤ 10
  pub few1 : n1 ≤ 10
  pub fd : out.1.sockfd ≡ negsuc 0
  pub opened : out.1.opened ≡ s.opened
  pub sent : out.1.sent ≡ s.sent ++ (replicate n0 (on br0 text) ++ replicate n1 (on br1 text))
  pub result : ((out.0 ≡ pos 0) × (0 < n0 + n1)) ⊎ (out.0 ≡ negsuc 0)

both :
    (text : List ℕ) (s : Net) (out out' : ℤ × Net)
    → Closed text br0 s out
    → Closed text br1 out.1 out'
    → Broadcast text s (either_zero out.0 out'.0, out'.1)
both text s out out' c c' = record {
  n0 = c.n;
  n1 = c'.n;
  few0 = c.few;
  few1 = c'.few;
  fd = c'.fd;
  opened = c'.opened ∙ c.opened;
  sent =
      c'.sent
      ∙ ap (λ q. q ++ replicate c'.n (on br1 text)) c.sent
      ∙ append_assoc s.sent (replicate c.n (on br0 text)) (replicate c'.n (on br1 text));
  result = either_result out.0 out'.0 c.n c'.n c.result c'.result;
}

-- With /tmp/test_mode there, no socket in `sockfd` (it is -1), a MAC address of at most 17 bytes and a
-- command below 100, the call does not fault. What it sends is the address and the command's two
-- digits, to the broadcast address and SEND_PORT, at most ten times on br0 and then at most ten times
-- on br1, and nothing else; it leaves `sockfd` at -1 and the descriptors that were open before,
-- whatever the kernel answers; and it returns 0, and then the text was taken at least once, or -1.
pub send_cmd_to_server-Broadcast :
    (mac : List ℕ) (a0 a1 : Answers) (cmd : ℕ) (s : Net)
    → length mac ≤ 17
    → cmd < 100
    → s.sockfd ≡ negsuc 0
    → (out : ℤ × Net) × (send_cmd_to_server true mac a0 a1 cmd s ≡ some out)
      × Broadcast (mac ++ digits2 cmd) s out
unfolding send_cmd_to_server mac_cmd
send_cmd_to_server-Broadcast mac a0 a1 cmd s fits small shut =
    let text = mac ++ digits2 cmd in
    let room : leb (length (mac ++ digits2 cmd) + 1) 20 ≡ true =
      ground (arith, length-append mac (digits2 cmd)) in
    let (out, ran, c) = send_broadcast-Closed a0 text br0 s shut (omega arith) in
    let (out', ran', c') = send_broadcast-Closed a1 text br1 out.1 c.fd (omega arith) in
    (
      (either_zero out.0 out'.0, out'.1),
      rw (two_lem cmd small, room, ran, ran'),
      both text s out out' c c',
    )
