-- ===== src/DhcpClient/Receive.antt =====
-- What the client has after the resolver's line.
use tu_thesis.Base.{
  sym, ℕ, suc, ◌*◌, ◌%◌, ◌^◌, ◌≤◌, ◌<◌, ◌≡◌, refl, ap, ◌∙◌, false, true, some, none, List, [], ◌∷◌,
  ◌++◌, length, has, All, arith, append-nil,
}
use tu_thesis.Text.Bytes.{Bytes}
use tu_thesis.Text.Number.{stoi, to_string}
use tu_thesis.Text.Number.RoundTrip.{to_string-has, stoi-to_string}
use tu_thesis.Text.Stream.{Stream, at_end, open_stream, break_at, extracted, getline}
use tu_thesis.Text.Stream.Split.{
  split, split-item, split_unended, IsItem, getlines_from-closed, getlines_from-eq-split,
}
use tu_thesis.Exec.{ok}
use tu_thesis.World.{DhcpClient}
use tu_thesis.DhcpClient.{read_field, read_lease, read_dns, read_line, receive, renewal}

break_at-item :
    (d : ℕ) (x rest : Bytes) → has d x ≡ false → break_at d (x ++ (d ∷ rest)) ≡ (x, some rest)
unfolding break_at
break_at-item d [] rest h = ground arith
break_at-item d (c ∷ x) rest h = ground (arith, break_at-item d x rest)

getline-item :
    (d : ℕ) (x rest : Bytes)
    → has d x ≡ false
    → getline d (open_stream (x ++ (d ∷ rest))) ≡ extracted (x, some rest)
unfolding getline
getline-item d x rest h = ap extracted (break_at-item d x rest h)

-- What the resolver prints: five fields, the lease, and the name servers.
pub record Answer : Type 0 where
  pub server : Bytes
  pub ip : Bytes
  pub mask : Bytes
  pub broadcast : Bytes
  pub gateway : Bytes
  pub lease : ℕ
  pub dns_servers : List Bytes

abbrev pub field : Bytes → Bytes → Bytes
field x rest = x ++ (b',' ∷ rest)

abbrev pub newline : Bytes
newline = b'\n' ∷ []

-- `printf(",%s",str)` for each name server, and `printf("\n")`.
abbrev pub servers_text : List Bytes → Bytes
servers_text [] = newline
servers_text (x ∷ xs) = b',' ∷ (x ++ servers_text xs)

-- The line that `pt_recvmessage_dhcp` prints.
abbrev pub answer_line : Answer → Bytes
answer_line a = field a.server (
    field a.ip (
      field a.mask
        (field a.broadcast (field a.gateway (to_string a.lease ++ servers_text a.dns_servers)))))

-- The name servers as they are read: the end of the line stays at the last one.
abbrev pub received : List Bytes → List Bytes
received [] = []
received (x ∷ []) = (x ++ newline) ∷ []
received (x ∷ y ∷ xs) = x ∷ received (y ∷ xs)

-- No field holds a comma.
abbrev pub IsAnswer : Answer → Type 0
IsAnswer a =
    IsItem b',' a.server
    × IsItem b',' a.ip
    × IsItem b',' a.mask
    × IsItem b',' a.broadcast
    × IsItem b',' a.gateway
    × All (IsItem b',') a.dns_servers

has-newline : (x : Bytes) → IsItem b',' x → IsItem b',' (x ++ newline)
has-newline [] h = refl
has-newline (c ∷ x) h = ground (arith, has-newline x)

split-last : (x : Bytes) → IsItem b',' x → split b',' (x ++ newline) ≡ (x ++ newline) ∷ []
split-last [] h = split_unended b',' b'\n' [] refl
split-last (c ∷ x) h = split_unended b',' c (x ++ newline) (has-newline (c ∷ x) h)

split-servers_text :
    (x : Bytes) (xs : List Bytes)
    → IsItem b',' x
    → All (IsItem b',') xs
    → split b',' (x ++ servers_text xs) ≡ received (x ∷ xs)
split-servers_text x [] h _ = split-last x h
split-servers_text x (y ∷ xs) h (next, rest) =
    split-item b',' x (y ++ servers_text xs) h ∙ ap (◌∷◌ x) (split-servers_text y xs next rest)

break_at-none : (d : ℕ) (x : Bytes) → has d x ≡ false → break_at d x ≡ (x, none)
unfolding break_at
break_at-none d [] h = refl
break_at-none d (c ∷ x) h = ground (arith, break_at-none d x)

at_end-newline :
    (x : Bytes)
    → at_end (x ++ newline) ≡ record {
      success = true;
      line = some (x ++ newline);
      stream = record { unread = []; good = false };
    }
at_end-newline [] = refl
at_end-newline (c ∷ x) = refl

getline-last :
    (x : Bytes)
    → IsItem b',' x
    → getline b',' (open_stream (x ++ newline)) ≡ record {
      success = true;
      line = some (x ++ newline);
      stream = record { unread = []; good = false };
    }
unfolding getline
getline-last x h =
    ap extracted (break_at-none b',' (x ++ newline) (has-newline x h)) ∙ at_end-newline x

-- What is left of the stream behind the lease.
abbrev after_lease : List Bytes → Stream
after_lease [] = record { unread = []; good = false }
after_lease (x ∷ xs) = open_stream (x ++ servers_text xs)

module _ (c : DhcpClient) where
  read_field_item :
      (set : Bytes → DhcpClient → DhcpClient) (x rest : Bytes)
      → IsItem b',' x
      → read_field set (c, open_stream (field x rest)) ≡ (ok tt, (set x c, open_stream rest))
  unfolding read_field
  read_field_item set x rest h = rw (getline-item b',' x rest h) refl

  -- The lease, which the number ends, whatever stands behind it in the item.
  read_lease_items :
      (n : ℕ) (servers : List Bytes)
      → n < 2 ^ 31
      → read_lease (c, open_stream (to_string n ++ servers_text servers))
        ≡ (ok tt, (record c { lease = some n }, after_lease servers))
  unfolding read_lease
  read_lease_items n [] small = rw (getline-last (to_string n) (to_string-has b',' n refl)) (
      rw (stoi-to_string n newline small refl) (
        let whole : n % 2 ^ 32 ≡ n = omega arith in
        ap (λ k. (ok tt, (record c { lease = some k }, after_lease []))) whole))
  read_lease_items n (x ∷ xs) small =
      rw (getline-item b',' (to_string n) (x ++ servers_text xs) (to_string-has b',' n refl)) (
        rw (ap stoi (sym (append-nil (to_string n))) ∙ stoi-to_string n [] small refl) (
          let whole : n % 2 ^ 32 ≡ n = omega arith in
          ap (λ k. (ok tt, (record c { lease = some k }, after_lease (x ∷ xs)))) whole))

  read_dns_items :
      (servers : List Bytes)
      → All (IsItem b',') servers
      → (read_dns (c, after_lease servers)).0 ≡ ok tt
        × (read_dns (c, after_lease servers)).1.0
          ≡ record c { dns_servers = c.dns_servers ++ received servers }
  unfolding read_dns
  read_dns_items [] h = (refl, rw (getlines_from-closed b',' 1) refl)
  read_dns_items (x ∷ xs) (h, hs) = (
    refl,
    rw
        (getlines_from-eq-split b',' (suc (length (x ++ servers_text xs))) (x ++ servers_text xs)
          (omega arith))
        (rw (split-servers_text x xs h hs) refl),
  )

-- A line whose fields hold no comma, with a lease that an `int` holds, sets the fields of the client.
-- Its name servers are put behind those that the client has, the last one with the end of the line.
pub receive_answer :
    (a : Answer) (c : DhcpClient)
    → IsAnswer a
    → a.lease < 2 ^ 31
    → receive (answer_line a) c ≡ (
      ok tt,
      record c {
        dhcp_server = a.server;
        ip = a.ip;
        mask = a.mask;
        broadcast = a.broadcast;
        gateway = a.gateway;
        lease = some a.lease;
        dns_servers = c.dns_servers ++ received a.dns_servers;
      },
    )
unfolding receive read_line read_dns
receive_answer a c (server, ip, mask, broadcast, gateway, dns) small =
    rw (read_field_item _ _ a.server _ server) (
      rw (read_field_item _ _ a.ip _ ip) (
        rw (read_field_item _ _ a.mask _ mask) (
          rw (read_field_item _ _ a.broadcast _ broadcast) (
            rw (read_field_item _ _ a.gateway _ gateway) (
              rw (read_lease_items _ a.lease a.dns_servers small)
                (ap (λ d. (ok tt, d)) (read_dns_items _ a.dns_servers dns).1))))))

-- The client asks again after at least nine tenths of the lease, and not after its end.
pub renewal_bounds : (lease : ℕ) → (renewal lease ≤ lease) × (9 * lease ≤ 10 * renewal lease)
unfolding renewal
renewal_bounds lease = omega arith
