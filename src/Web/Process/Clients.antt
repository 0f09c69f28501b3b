-- ===== src/Web/Process/Clients.antt =====
-- What the clients leave true, whatever they send.
use tu_thesis.Base.{ℕ, Option, none, some, List, [], ◌∷◌}
use tu_thesis.Text.Bytes.{Bytes}
use tu_thesis.Exec.{Exec, Outcome}
use tu_thesis.Exec.Preserves.{Preserves, bind-Preserves, lift-Preserves, pure-Preserves}
use tu_thesis.World.{World}
use tu_thesis.FileConfigurator.{Reader}
use tu_thesis.PluginConfigurator.{PluginConfigurator}
use tu_thesis.PluginConfigurator.Numbers.{IsNumbered, on_plugin-IsNumbered}
use tu_thesis.Web.Socket.{Socket, Request, read_request}
use tu_thesis.Web.Process.{
  answer_request, client_thread, serve_clients, process_request, after_client,
}
use tu_thesis.Web.Process.Rules.{process_request-Preserves}

-- The state that a client's thread leaves, if it ends.
abbrev AllGood :
    (PluginConfigurator × World → Type 0)
    → Option (Outcome Bytes × (PluginConfigurator × World))
    → Type 0
AllGood Q none = Unit
AllGood Q (some (r, s)) = Q s

module _ (open_reader : Bytes → Reader) (Q : PluginConfigurator × World → Type 0)
    (each : (r : Request) → Preserves Q (process_request open_reader r)) where
  answer_request-AllGood :
      (o : Option (Outcome Request)) (s : PluginConfigurator × World)
      → Q s
      → AllGood Q (answer_request open_reader o s)
  answer_request-AllGood none s q = tt
  answer_request-AllGood (some r) s q =
      (lift-Preserves r _
          (λ request e. bind-Preserves _ _ (each request) (λ _. pure-Preserves _))).holds
        s q

  after_client-Preserves :
      (others : Exec (PluginConfigurator × World) (List Bytes))
      → Preserves Q others
      → (s : PluginConfigurator × World) (o : Option (Outcome Bytes × (PluginConfigurator × World)))
      → Q s
      → AllGood Q o
      → Q (after_client open_reader others s o).1
  after_client-Preserves others h s none q good = h.holds s q
  after_client-Preserves others h s (some (r, t)) q good =
      (lift-Preserves r _ (λ sent e. bind-Preserves _ _ h (λ _. pure-Preserves _))).holds t good

  serve_clients-Preserves :
      (fuel : ℕ) (sockets : List Socket) → Preserves Q (serve_clients open_reader fuel sockets)
  unfolding serve_clients client_thread
  serve_clients-Preserves fuel [] = record { holds = λ s q. q }
  serve_clients-Preserves fuel (socket ∷ sockets) = record {
    holds = λ s q.
        after_client-Preserves _ (serve_clients-Preserves fuel sockets) s _ q
          (answer_request-AllGood (read_request fuel socket) s q);
  }

-- Whatever the clients send, in whichever order they are handled, and even if one of them ends the
-- program: the numbers of the plugins stay those below the next one.
pub serve_clients-IsNumbered :
    (open_reader : Bytes → Reader) (fuel : ℕ) (sockets : List Socket) (c : PluginConfigurator)
    (w : World)
    → IsNumbered c
    → IsNumbered (serve_clients open_reader fuel sockets (c, w)).1.0
serve_clients-IsNumbered open_reader fuel sockets c w h =
    (serve_clients-Preserves open_reader (λ (c, w). IsNumbered c)
        (λ r.
          process_request-Preserves (λ (c, w). IsNumbered c) r
            (λ A id m e. on_plugin-IsNumbered A id m) open_reader)
        fuel sockets).holds
      (c, w) h
