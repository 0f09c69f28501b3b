-- ===== src/Web/Process.antt =====
-- `processRequest`, `sendMessage` and the threads.
pub mod Rules
pub mod Chosen
pub mod Resubmitted
pub mod Clients
pub mod Posted
pub mod Late
pub mod Visited
use tu_thesis.Base.{ℕ, Option, none, some, List, [], ◌∷◌, ◌++◌, ltb, ◌==◌, if◌then◌else◌, take}
use tu_thesis.Base.Int.{ℤ, pos, negsuc, same_int}
use tu_thesis.Text.Bytes.{Bytes, bytes, same}
use tu_thesis.Text.Search.{find_byte}
use tu_thesis.Exec.{
  Exec, Outcome, ok, throw, undefined, runtime_error, invalid_argument, out_of_range, Exception,
  stuck, pure, lift, modify, try, ◌>>=◌, ◌>>◌,
}
use tu_thesis.Map
use tu_thesis.Map.{bytes_key, value_or_empty}
use tu_thesis.World.{World}
use tu_thesis.System.{c_string}
use tu_thesis.FileConfigurator.{Reader}
use tu_thesis.Plugin
use tu_thesis.PluginConfigurator.{PluginConfigurator, on_plugin, new_configurator}
use tu_thesis.Web.Socket.{Request, Socket, read_request}
use tu_thesis.Web.PluginId.{plugin_id}
use tu_thesis.Web.Page.{generate_html_message}

-- `type.substr(0, type.find(' '))`
abbrev pub method_of : Bytes → Bytes
method_of type = elim (find_byte b' ' type) [ none ↦ type | some space ↦ take space type ]

-- The bytes that `sendMessage` writes: `strlen` ends at the first NUL.
unfoldable pub message_bytes : Bytes → Bytes → Bytes
unfolding c_string
message_bytes content_type message = c_string (
    bytes "\r\nHTTP/1.1 \r\nContent-Type:"
    ++ (content_type ++ (bytes "; \r\n\r\n" ++ (message ++ bytes "\r\n\r\n"))))

-- What the constructor's calls of `socket`, `bind` and `listen` return.
pub record Calls : Type 0 where
  pub server_socket : ℤ
  pub bound : ℤ
  pub listening : ℤ

abbrev is_negative : ℤ → Outcome (Unit {0}) → Outcome (Unit {0}) → Outcome (Unit {0})
is_negative (pos _) failed done = done
is_negative (negsuc _) failed done = failed

-- The constructor. The socket is closed if it cannot be used.
unfoldable pub new_web_plugin_configurator : Calls → Outcome (Unit {0})
new_web_plugin_configurator calls =
    if same_int calls.server_socket (pos 0)
    then throw (runtime_error (bytes "Failed to open socket."))
    else is_negative calls.bound (throw (runtime_error (bytes "Failed to create bind."))) (
        is_negative calls.listening (throw (runtime_error (bytes "Failed to create listen.")))
          (ok tt))

-- The sockets that `accept` returns one after the other, `none` if it is negative: a thread is started
-- for each client, and the loop goes on.
unfoldable pub accept_clients : List (Option Socket) → List Socket
accept_clients [] = []
accept_clients (none ∷ calls) = accept_clients calls
accept_clients (some socket ∷ calls) = socket ∷ accept_clients calls

-- The INI reader that a file is opened with.
module _ (open_reader : Bytes → Reader) where
  -- `configure` of the plugin that the request names; -1 is `npos`.
  unfoldable pub configure_plugin : Request → ℤ → Exec (PluginConfigurator × World) (Unit {0})
  unfolding on_plugin Plugin.configure
  configure_plugin r id =
      if same_int id (negsuc 0)
      then pure tt
      else on_plugin id (Plugin.configure open_reader r.fields)

  -- The handlers of an exception of `getPluginIdOfRequest`: all but the first write `plugin_id`, which
  -- has no value then.
  abbrev pub unset_id : Exception → Exec (PluginConfigurator × World) (Unit {0})
  unset_id (invalid_argument _) = pure tt
  unset_id (out_of_range _) = stuck
  unset_id (runtime_error _) = stuck

  -- The rest of the `try` block: each of the three handlers writes a message.
  abbrev pub post_to : Request → Outcome ℤ → Exec (PluginConfigurator × World) (Unit {0})
  post_to r (ok id) = try (configure_plugin r id) (λ _. pure tt)
  post_to r (throw e) = unset_id e
  post_to r undefined = stuck

  -- The `try` block.
  unfoldable pub post : Request → Exec (PluginConfigurator × World) (Unit {0})
  unfolding configure_plugin plugin_id
  post r = post_to r (plugin_id r)

  -- `processRequest`
  unfoldable pub process_request : Request → Exec (PluginConfigurator × World) Bytes
  unfolding post generate_html_message find_byte same Map.lookup
  process_request r =
      let type = value_or_empty (Map.lookup (bytes "Type") r.header) in
      (if same (bytes "POST") (method_of type) then post r else pure tt) >> generate_html_message r

  abbrev pub answer_request :
      Option (Outcome Request)
      → PluginConfigurator × World
      → Option (Outcome Bytes × (PluginConfigurator × World))
  answer_request none s = none
  answer_request (some r) s = some (
      (lift r >>= λ request.
      process_request request >>= λ response. pure (message_bytes (bytes "text/html") response))
        s)

  -- `ClientThread`: what is sent, unless the header never ends.
  unfoldable pub client_thread :
      ℕ
      → Socket
      → PluginConfigurator × World
      → Option (Outcome Bytes × (PluginConfigurator × World))
  unfolding read_request process_request message_bytes
  client_thread fuel socket = answer_request (read_request fuel socket)

  -- What comes after a client: an exception that leaves its thread ends the program.
  abbrev pub after_client :
      Exec (PluginConfigurator × World) (List Bytes)
      → PluginConfigurator × World
      → Option (Outcome Bytes × (PluginConfigurator × World))
      → Outcome (List Bytes) × (PluginConfigurator × World)
  after_client others s none = others s
  after_client others _ (some (r, s)) = (lift r >>= λ sent. others >>= λ rest. pure (sent ∷ rest)) s

  -- The clients in the order in which their requests are handled.
  unfoldable pub serve_clients : ℕ → List Socket → Exec (PluginConfigurator × World) (List Bytes)
  unfolding client_thread
  serve_clients fuel [] s = pure [] s
  serve_clients fuel (socket ∷ sockets) s =
      after_client (serve_clients fuel sockets) s (client_thread fuel socket s)
