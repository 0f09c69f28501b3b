-- ===== src/DhcpClient.antt =====
-- DHCPClient/src/DHCPClient.cpp: what the client does with the line that the resolver prints.
pub mod Receive
use tu_thesis.Base.{
  false, true, ℕ, suc, ◌-◌, ◌/◌, ◌%◌, ◌^◌, Bool, Option, none, some, [], ◌++◌, length,
  if◌then◌else◌,
}
use tu_thesis.Base.Int.{ℤ, pos, negsuc}
use tu_thesis.Text.Bytes.{Bytes}
use tu_thesis.Text.Number.{stoi}
use tu_thesis.Text.Stream.{Stream, open_stream, getline, line_or, getlines_from}
use tu_thesis.Exec.{on_object, assign, Exec, pure, modify, lift, ◌>>=◌, ◌>>◌}
use tu_thesis.World.{DhcpClient}

-- `DHCPClient::DHCPClient`
abbrev pub new_client : Bytes → DhcpClient
new_client interface = record {
  interface = interface;
  running = false;
  dhcp_server = [];
  ip = [];
  mask = [];
  broadcast = [];
  gateway = [];
  dns_servers = [];
  lease = none;
}

-- `start`: a thread is started if none runs.
unfoldable pub start : Exec DhcpClient (Unit {0})
start c = if c.running then pure tt c else pure tt (record c { running = true })

-- `stop`: the thread is joined, if one runs.
unfoldable pub stop : Exec DhcpClient (Unit {0})
stop c = if c.running then pure tt (record c { running = false }) else pure tt c

-- An `int` that is stored in a `uint`.
abbrev pub to_uint : ℤ → ℕ
to_uint (pos n) = n % 2 ^ 32
to_uint (negsuc n) = 2 ^ 32 - 1 - n % 2 ^ 32

abbrev pub Reading : Type 0 → Type 0
Reading A = Exec (DhcpClient × Stream) A

-- A call of `getline` that finds the stream at its end leaves the field as it was.
abbrev pub assign_line : (Bytes → DhcpClient → DhcpClient) → Option Bytes → DhcpClient → DhcpClient
assign_line set none c = c
assign_line set (some line) c = set line c

-- `std::getline(lineStream, this->field, ',')`
unfoldable pub read_field : (Bytes → DhcpClient → DhcpClient) → Reading (Unit {0})
read_field set (c, s) = let r = getline b',' s in pure tt (assign_line set r.line c, r.stream)

-- `this->lease = std::stoi(lease_string);`
unfoldable pub read_lease : Reading (Unit {0})
read_lease (c, s) =
    let r = getline b',' s in
    (do
      n ← on_object (lift (stoi (line_or [] r)))
      assign (λ c. record c { lease = some (to_uint n) }))
      (c, r.stream)

-- The remaining items of the line are name servers, put behind those that the client has. The stream
-- is not used again.
unfoldable pub read_dns : Reading (Unit {0})
read_dns (c, s) =
    pure tt
      (record c { dns_servers = c.dns_servers ++ getlines_from (suc (length s.unread)) b',' s }, s)

unfoldable pub read_line : Reading (Unit {0})
read_line = do
  read_field (λ line c. record c { dhcp_server = line })
  read_field (λ line c. record c { ip = line })
  read_field (λ line c. record c { mask = line })
  read_field (λ line c. record c { broadcast = line })
  read_field (λ line c. record c { gateway = line })
  read_lease
  read_dns

-- What `run` does with a line that is not empty.
unfoldable pub receive : Bytes → Exec DhcpClient (Unit {0})
receive text c = let (r, s) = read_line (c, open_stream text) in (r, s.0)

-- `this->lease-(this->lease/10)`, the seconds until the next request.
unfoldable pub renewal : ℕ → ℕ
renewal lease = lease - lease / 10
