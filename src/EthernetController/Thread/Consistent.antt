-- ===== src/EthernetController/Thread/Consistent.antt =====
-- When there is a thread, by `running` and the place of the caller: kept by every step.
use tu_thesis.Text.Bytes.{Bytes}
use tu_thesis.World.{World, EthernetController}
use tu_thesis.EthernetController.{configure_interface}
use tu_thesis.DhcpClient.{stop}
use tu_thesis.Base.{List, ◌≡◌, ◌∙◌, ap, sym, refl, Bool, Bool-cases, inl, inr, true, false, not}
use tu_thesis.EthernetController.Thread.Running.{renew_running}
use tu_thesis.DhcpClient.{start, stop}
use tu_thesis.EthernetController.Thread.{
  after_start, start_thread, start_returns, clear_running, notify_timer, trigger_returns, join,
  configure, after_stop, wake, CallerStep, Place, Caller, Client, is_running, ThreadStep, absent,
  testing, working, notifying, checking, waiting, finished, idle, starting, stopping, triggering,
  joining, go_on, leave, work, notify, wait, skip, time_out,
}

abbrev in_loop : Place → Bool
in_loop absent = false
in_loop finished = false
in_loop _ = true

abbrev pub exists : Place → Bool
exists absent = false
exists _ = true

-- While `running` is set the thread is in its loop and nobody stops it; otherwise there is a thread only
-- while `stop` is at work.
abbrev pub consistent : Bool → Place → Caller → Bool
consistent true place idle = in_loop place
consistent true place starting = in_loop place
consistent true place _ = false
consistent false place idle = not (exists place)
consistent false place starting = false
consistent false place _ = exists place

abbrev pub IsConsistent : Client → Type 0
IsConsistent c = consistent (is_running c.controller) c.thread c.caller ≡ true

-- Places that a thread goes to from one another without a look at `running`.
alike :
    (running : Bool) (p q : Place) (caller : Caller)
    → in_loop p ≡ in_loop q
    → exists p ≡ exists q
    → consistent running p caller ≡ true
    → consistent running q caller ≡ true
alike true p q idle l e h = sym l ∙ h
alike true p q starting l e h = sym l ∙ h
alike true p q stopping l e h = h
alike true p q triggering l e h = h
alike true p q joining l e h = h
alike false p q idle l e h = sym (ap not e) ∙ h
alike false p q starting l e h = h
alike false p q stopping l e h = sym e ∙ h
alike false p q triggering l e h = sym e ∙ h
alike false p q joining l e h = sym e ∙ h

left :
    (running : Bool) (p q : Place) (caller : Caller)
    → running ≡ false
    → exists p ≡ exists q
    → consistent running p caller ≡ true
    → consistent running q caller ≡ true
left true p q caller off e h = cc
left false p q idle off e h = sym (ap not e) ∙ h
left false p q starting off e h = h
left false p q stopping off e h = sym e ∙ h
left false p q triggering off e h = sym e ∙ h
left false p q joining off e h = sym e ∙ h

pub thread-IsConsistent : {c d : Client} → ThreadStep c d → IsConsistent c → IsConsistent d
thread-IsConsistent (go_on {e} {w} {caller} on) h =
    alike (is_running e) testing working caller refl refl h
thread-IsConsistent (leave {e} {w} {caller} off) h =
    left (is_running e) testing finished caller off refl h
thread-IsConsistent (work {e} {e'} {w} {w'} {caller} done) h =
    let same = ap (λ r. is_running r.1.0) (sym done) ∙ renew_running e w in
    rw same (alike (is_running e) working notifying caller refl refl h)
thread-IsConsistent (notify {e} {w} {caller}) h =
    alike (is_running e) notifying checking caller refl refl h
thread-IsConsistent (wait {e} {w} {caller} on) h =
    alike (is_running e) checking waiting caller refl refl h
thread-IsConsistent (skip {e} {w} {caller} off) h =
    alike (is_running e) checking testing caller refl refl h
thread-IsConsistent (time_out {e} {w} {caller}) h =
    alike (is_running e) waiting testing caller refl refl h

pub start_running : (e : EthernetController) → is_running (after_start e) ≡ true
unfolding start
start_running e = elim (Bool-cases (is_running e)) [ inl on ↦ rw on refl | inr off ↦ rw off refl ]

pub stop_running : (e : EthernetController) → is_running (after_stop e) ≡ false
unfolding stop
stop_running e = elim (Bool-cases (is_running e)) [ inl on ↦ rw on refl | inr off ↦ rw off refl ]

woken :
    (running : Bool) (p : Place)
    → consistent running p stopping ≡ true
    → consistent running (wake p) triggering ≡ true
woken true p h = h
woken false absent h = h
woken false testing h = h
woken false working h = h
woken false notifying h = h
woken false checking h = h
woken false waiting h = h
woken false finished h = h

started :
    (running : Bool) (p : Place)
    → consistent running p starting ≡ true
    → consistent running p idle ≡ true
started true p h = h
started false p h = cc

cleared :
    (running : Bool) (p : Place)
    → running ≡ true
    → consistent running p idle ≡ true
    → consistent false p stopping ≡ true
cleared false p on h = cc
cleared true absent on h = h
cleared true testing on h = h
cleared true working on h = h
cleared true notifying on h = h
cleared true checking on h = h
cleared true waiting on h = h
cleared true finished on h = cc

triggered :
    (running : Bool) (p : Place)
    → consistent running p triggering ≡ true
    → consistent running p joining ≡ true
triggered true p h = h
triggered false p h = h

joined :
    (running : Bool)
    → consistent running finished joining ≡ true
    → consistent running absent idle ≡ true
joined true h = h
joined false h = refl

configure_running :
    (ip netmask gateway : Bytes) (dns_servers : List Bytes) (e : EthernetController) (w : World)
    → is_running (configure_interface ip netmask gateway dns_servers (e, w)).1.0 ≡ is_running e
unfolding configure_interface
configure_running ip netmask gateway dns_servers e w = refl

pub caller-IsConsistent : {c d : Client} → CallerStep c d → IsConsistent c → IsConsistent d
caller-IsConsistent (start_thread {e} {w} {place} off) h = rw (start_running e) refl
caller-IsConsistent (start_returns {e} {w} {place}) h = started (is_running e) place h
caller-IsConsistent (clear_running {e} {w} {place} on) h =
    rw (stop_running e) (cleared (is_running e) place on h)
caller-IsConsistent (notify_timer {e} {w} {place}) h = woken (is_running e) place h
caller-IsConsistent (trigger_returns {e} {w} {place}) h = triggered (is_running e) place h
caller-IsConsistent (join {e} {w}) h = joined (is_running e) h
caller-IsConsistent (configure {e} {e'} {w} {w'} {place} {r} ip netmask gateway dns_servers done)
      h =
    let same =
      ap (λ t. is_running t.1.0) (sym done)
      ∙ configure_running ip netmask gateway dns_servers e w in
    rw same h
