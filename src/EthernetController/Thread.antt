-- ===== src/EthernetController/Thread.antt =====
-- DHCPClient/src/DHCPClient.cpp: `DHCPClient::run` and its callers as steps of two threads, on the controller that owns the client.
pub mod Running
pub mod Consistent
pub mod Stopped
use tu_thesis.Base.{◌≡◌, Bool, true, false, List}
use tu_thesis.Text.Bytes.{Bytes}
use tu_thesis.Exec.{Outcome, ok}
use tu_thesis.World.{World, EthernetController}
use tu_thesis.DhcpClient.{start, stop}
use tu_thesis.EthernetController.{renew, configure_interface}

-- Where the thread is: there is none, it tests `running`, it asks the resolver and delivers the answer,
-- it notifies `trigger_cond`, it tests `running` again, it waits for the timer, it has left the loop.
pub data Place : Type 0 where
  absent testing working notifying checking waiting finished : Place

-- Where the caller is: in no method, in the wait of `start`, in `stop` before the notification of the
-- timer, in the wait of `triggerIPCheck`, in `join`.
pub data Caller : Type 0 where
  idle starting stopping triggering joining : Caller

pub record Client : Type 0 where
  pub controller : EthernetController
  pub world : World
  pub thread : Place
  pub caller : Caller

abbrev pub is_running : EthernetController → Bool
is_running e = e.dhcp_client.running

abbrev pub at : EthernetController → World → Place → Caller → Client
at e w thread caller = record { controller = e; world = w; thread = thread; caller = caller }

-- `notify_all` of the timer: a thread that waits goes on, and any other does not notice.
abbrev pub wake : Place → Place
wake waiting = testing
wake place = place

abbrev pub after_start : EthernetController → EthernetController
after_start e = record e { dhcp_client = (start e.dhcp_client).1 }

abbrev pub after_stop : EthernetController → EthernetController
after_stop e = record e { dhcp_client = (stop e.dhcp_client).1 }

-- The steps of the thread. An exception in its work ends the program. How long it waits is left open.
pub data ThreadStep : Client → Client → Type 0 where
  go_on :
      {e : EthernetController} {w : World} {caller : Caller}
      → is_running e ≡ true
      → ThreadStep (at e w testing caller) (at e w working caller)
  leave :
      {e : EthernetController} {w : World} {caller : Caller}
      → is_running e ≡ false
      → ThreadStep (at e w testing caller) (at e w finished caller)
  work :
      {e e' : EthernetController} {w w' : World} {caller : Caller}
      → renew (e, w) ≡ (ok tt, (e', w'))
      → ThreadStep (at e w working caller) (at e' w' notifying caller)
  notify :
      {e : EthernetController} {w : World} {caller : Caller}
      → ThreadStep (at e w notifying caller) (at e w checking caller)
  wait :
      {e : EthernetController} {w : World} {caller : Caller}
      → is_running e ≡ true
      → ThreadStep (at e w checking caller) (at e w waiting caller)
  skip :
      {e : EthernetController} {w : World} {caller : Caller}
      → is_running e ≡ false
      → ThreadStep (at e w checking caller) (at e w testing caller)
  time_out :
      {e : EthernetController} {w : World} {caller : Caller}
      → ThreadStep (at e w waiting caller) (at e w testing caller)

-- The steps of the caller of `start` and `stop`. Each wait for the notification lasts two seconds at
-- most. Between the calls it may configure the interface.
pub data CallerStep : Client → Client → Type 0 where
  start_thread :
      {e : EthernetController} {w : World} {place : Place}
      → is_running e ≡ false
      → CallerStep (at e w place idle) (at (after_start e) w testing starting)
  start_returns :
      {e : EthernetController} {w : World} {place : Place}
      → CallerStep (at e w place starting) (at e w place idle)
  clear_running :
      {e : EthernetController} {w : World} {place : Place}
      → is_running e ≡ true
      → CallerStep (at e w place idle) (at (after_stop e) w place stopping)
  notify_timer :
      {e : EthernetController} {w : World} {place : Place}
      → CallerStep (at e w place stopping) (at e w (wake place) triggering)
  trigger_returns :
      {e : EthernetController} {w : World} {place : Place}
      → CallerStep (at e w place triggering) (at e w place joining)
  join :
      {e : EthernetController} {w : World}
      → CallerStep (at e w finished joining) (at e w absent idle)
  configure :
      {e e' : EthernetController} {w w' : World} {place : Place} {r : Outcome (Unit {0})}
      (ip netmask gateway : Bytes) (dns_servers : List Bytes)
      → configure_interface ip netmask gateway dns_servers (e, w) ≡ (r, (e', w'))
      → CallerStep (at e w place idle) (at e' w' place idle)

-- What any steps of the two threads lead to.
pub data Reach : Client → Client → Type 0 where
  here : {c : Client} → Reach c c
  thread_then : {b c d : Client} → Reach b c → ThreadStep c d → Reach b d
  caller_then : {b c d : Client} → Reach b c → CallerStep c d → Reach b d
