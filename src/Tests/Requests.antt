-- ===== src/Tests/Requests.antt =====
-- Texts that the program reads and writes: requests, leases, outputs of commands.
use tu_thesis.Base.{zero, suc, ℕ, ◌≡◌, refl, none, some, List, [], ◌∷◌, ◌++◌, map, arith, inr}
use tu_thesis.Base.Int.{pos}
use tu_thesis.Text.Bytes.{Bytes, bytes}
use tu_thesis.Text.Number.{to_string, stoi}
use tu_thesis.Text.Number.RoundTrip.{stoi-to_string}
use tu_thesis.Text.Stream.{getlines}
use tu_thesis.Text.Stream.Split.{split, join_with, getlines-eq-split}
use tu_thesis.Text.Search.{find}
use tu_thesis.Exec.{ok, throw, undefined, invalid_argument, out_of_range}
use tu_thesis.Map
use tu_thesis.Map.{bytes_key}
use tu_thesis.System.{exec, issue}
use tu_thesis.System.Output.{exec_whole}
use tu_thesis.DhcpClient.{new_client, receive}
use tu_thesis.DhcpClient.Receive.{Answer, answer_line, newline, receive_answer}
use tu_thesis.DhcpServer.{lease_string, create_configuration}
use tu_thesis.DhcpServer.Lease.{Written, lease_string-Written, create_configuration_refused}
use tu_thesis.Web.Socket.{Received, read_header}
use tu_thesis.Web.Socket.Reading.{Found, read_header_ends, read_header_closed, read_header_overflow}
use tu_thesis.Web.Parse.{header_row, parse_data}
use tu_thesis.Web.Parse.Rows.{
  field_line, insert_all, parse_data_form, header_row_value, header_row_no_value,
}
use tu_thesis.Web.PluginId.{plugin_id_of_type}
use tu_thesis.Web.PluginId.Link.{request_line, plugin_id-link}
use tu_thesis.Tests.{quiet, eth0}

exec_whole_example :
    exec (bytes "./dhcpresolver -T eth0") quiet
    ≡ (ok (bytes "10.0.0.2,255.0.0.0"), issue (bytes "./dhcpresolver -T eth0") quiet)
unfolding bytes
exec_whole_example =
    exec_whole (bytes "./dhcpresolver -T eth0") (bytes "10.0.0.2,255.0.0.0") quiet refl refl

getlines-eq-split_example : getlines b',' (bytes "en0,,lo") ≡ split b',' (bytes "en0,,lo")
getlines-eq-split_example = getlines-eq-split b',' (bytes "en0,,lo")

split_test : split b',' (bytes "en0,,lo") ≡ bytes "en0" ∷ [] ∷ bytes "lo" ∷ []
unfolding split bytes
split_test = refl

stoi-to_string_example : stoi (to_string 1207 ++ bytes " rest") ≡ ok (pos 1207)
unfolding bytes
stoi-to_string_example = stoi-to_string 1207 (bytes " rest") (omega arith) refl

to_string_test : to_string 1207 ≡ bytes "1207"
unfolding to_string bytes
to_string_test = refl

abbrev answer : Answer
answer = record {
  server = bytes "10.0.0.1";
  ip = bytes "10.0.0.2";
  mask = bytes "255.0.0.0";
  broadcast = bytes "10.255.255.255";
  gateway = bytes "10.0.0.1";
  lease = 7200;
  dns_servers = bytes "9.9.9.9" ∷ bytes "1.1.1.1" ∷ [];
}

receive_answer_example :
    receive (answer_line answer) (record (new_client eth0) { dns_servers = bytes "9.9.9.9" ∷ [] })
    ≡ (
      ok tt,
      record (new_client eth0) {
        dhcp_server = answer.server;
        ip = answer.ip;
        mask = answer.mask;
        broadcast = answer.broadcast;
        gateway = answer.gateway;
        lease = some 7200;
        dns_servers = bytes "9.9.9.9" ∷ bytes "9.9.9.9" ∷ (bytes "1.1.1.1" ++ newline) ∷ [];
      },
    )
unfolding bytes
receive_answer_example =
    receive_answer answer (record (new_client eth0) { dns_servers = bytes "9.9.9.9" ∷ [] })
      (refl, refl, refl, refl, refl, (refl, (refl, tt))) (omega arith)

lease_string-Written_example : (text : Bytes) × (lease_string 7205 ≡ ok text) × Written 7205 text
lease_string-Written_example = lease_string-Written 7205 (omega arith)

create_configuration_refused_example :
    (message : Bytes) × (create_configuration eth0 (bytes "10.0.0.2") (bytes "10.0.0.9") 119 quiet
      ≡ (throw (invalid_argument message), quiet))
create_configuration_refused_example =
    create_configuration_refused eth0 (bytes "10.0.0.2") (bytes "10.0.0.9") 119 quiet
      (inr (inr (omega arith)))

-- A request in two packets that are cut inside of the end of the header.
abbrev two_packets : List Bytes
two_packets =
    (bytes "GET / HTTP/1.1" ++ (b'\r' ∷ b'\n' ∷ b'\r' ∷ [])) ∷ (b'\n' ∷ bytes "name=value") ∷ []

read_header_ends_example :
    (r : Received) × (read_header 3 [] two_packets ≡ some (ok r)) × Found [] two_packets r
unfolding bytes find
read_header_ends_example =
    read_header_ends 3 [] two_packets ((omega arith, refl), ((omega arith, refl), tt)) (omega arith)
      (λ h. cc)

read_header_closed_example : read_header 1000 (bytes "GET / HTTP/1.1") [] ≡ none
unfolding bytes find
read_header_closed_example = read_header_closed 1000 (bytes "GET / HTTP/1.1") refl

abbrev repeat : ℕ → Bytes
repeat zero = []
repeat (suc n) = b'a' ∷ repeat n

read_header_overflow_example : read_header 1 [] (repeat 300 ∷ []) ≡ some undefined
read_header_overflow_example = read_header_overflow 0 [] (repeat 300) [] (omega arith)

abbrev form : List (Bytes × Bytes)
form = (bytes "interfaces", bytes "eth0,eth1") ∷ (bytes "lease", bytes "a=b") ∷ []

parse_data_form_example :
    parse_data (join_with b'\n' (map field_line form)) ≡ ok (insert_all form Map.empty)
unfolding bytes
parse_data_form_example = parse_data_form form ((refl, refl), ((refl, refl), tt))

header_row_value_example :
    header_row (bytes "Host" ++ (b':' ∷ b' ' ∷ (bytes "router" ++ (b'\r' ∷ [])))) Map.empty
    ≡ ok (Map.insert (bytes "Host") (bytes "router") Map.empty)
unfolding bytes
header_row_value_example = header_row_value (bytes "Host") (bytes "router") b'\r' Map.empty refl

header_row_no_value_example :
    header_row (bytes "Accept" ++ (b':' ∷ b'\r' ∷ [])) Map.empty
    ≡ throw (out_of_range (bytes "basic_string::substr"))
unfolding bytes
header_row_no_value_example = header_row_no_value (bytes "Accept") b'\r' Map.empty refl

plugin_id-link_example :
    plugin_id_of_type (request_line (bytes "POST /?") 12 (bytes "HTTP/1.1")) ≡ ok (pos 12)
unfolding bytes
plugin_id-link_example = plugin_id-link (bytes "POST /?") 12 (bytes "HTTP/1.1") refl (omega arith)
