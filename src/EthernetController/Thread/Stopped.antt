-- ===== src/EthernetController/Thread/Stopped.antt =====
-- What holds of the thread while the client is stopped and after it.
use tu_thesis.Base.{Bool, subst, ap₂, ◌≡◌, ◌≢◌, ◌∙◌, ap, sym, refl, true, false}
use tu_thesis.Text.Bytes.{Bytes}
use tu_thesis.Exec.{ok}
use tu_thesis.World.{World, EthernetController}
use tu_thesis.EthernetController.{renew, new_controller}
use tu_thesis.EthernetController.Thread.{
  wake, Place, Client, at, is_running, ThreadStep, Reach, absent, testing, working, notifying,
  checking, waiting, finished, idle, stopping, joining, go_on, leave, work, notify, wait, skip,
  time_out, notify_timer, trigger_returns, join, here, thread_then, caller_then,
}
use tu_thesis.EthernetController.Thread.Running.{renew_running}
use tu_thesis.EthernetController.Thread.Consistent.{
  exists, IsConsistent, consistent, thread-IsConsistent, caller-IsConsistent,
}

Reach-IsConsistent : {c d : Client} → Reach c d → IsConsistent c → IsConsistent d
Reach-IsConsistent here h = h
Reach-IsConsistent (thread_then reach step) h =
    thread-IsConsistent step (Reach-IsConsistent reach h)
Reach-IsConsistent (caller_then reach step) h =
    caller-IsConsistent step (Reach-IsConsistent reach h)

-- A new controller, before its client is started.
abbrev pub initial : Bytes → World → Client
initial name w = at (new_controller name) w absent idle

absent_if_idle : (p : Place) → consistent false p idle ≡ true → p ≡ absent
absent_if_idle absent h = refl
absent_if_idle testing h = cc
absent_if_idle working h = cc
absent_if_idle notifying h = cc
absent_if_idle checking h = cc
absent_if_idle waiting h = cc
absent_if_idle finished h = cc

IsConsistent-absent :
    (c : Client)
    → IsConsistent c
    → c.caller ≡ idle
    → is_running c.controller ≡ false
    → c.thread ≡ absent
IsConsistent-absent c h e off =
    absent_if_idle c.thread (ap₂ (λ r a. consistent r c.thread a) (sym off) (sym e) ∙ h)

step-present : {c d : Client} → ThreadStep c d → c.thread ≢ absent
step-present (go_on on) e = cc
step-present (leave off) e = cc
step-present (work done) e = cc
step-present notify e = cc
step-present (wait on) e = cc
step-present (skip off) e = cc
step-present time_out e = cc

-- Whatever steps the threads of a new controller have made: when the caller is in no method and
-- `running` is not set, as after `stop` has returned, the thread can make no step, so that it does not
-- overwrite what the caller configures.
pub no_step_after_stop :
    (name : Bytes) (w : World) (c d : Client)
    → Reach (initial name w) c
    → c.caller ≡ idle
    → is_running c.controller ≡ false
    → ¬ ThreadStep c d
no_step_after_stop name w c d reach e off step =
    step-present step (IsConsistent-absent c (Reach-IsConsistent reach refl) e off)

-- The caller is back from `stop`, and the thread is gone.
abbrev pub Stops : Client → Type 0
Stops c = (d : Client) × Reach c d × (d.caller ≡ idle) × (d.thread ≡ absent)

module _ (c : Client) (e : EthernetController) (w : World) (off : is_running e ≡ false) where
  from_finished : Reach c (at e w finished joining) → Stops c
  from_finished r = (at e w absent idle, caller_then r join, refl, refl)

  from_testing : Reach c (at e w testing joining) → Stops c
  from_testing r = from_finished (thread_then r (leave off))

  from_notifying : Reach c (at e w notifying joining) → Stops c
  from_notifying r = from_testing (thread_then (thread_then r notify) (skip off))

module _ (c : Client) (e e' : EthernetController) (w w' : World)
    (done : renew (e, w) ≡ (ok tt, (e', w'))) (off : is_running e ≡ false) where
  off_still : is_running e' ≡ false
  off_still = ap (λ r. is_running r.1.0) (sym done) ∙ renew_running e w ∙ off

  from_joining : (p : Place) → exists p ≡ true → Reach c (at e w p joining) → Stops c
  from_joining absent h r = cc
  from_joining testing h r = from_testing c e w off r
  from_joining working h r = from_notifying c e' w' off_still (thread_then r (work done))
  from_joining notifying h r = from_notifying c e w off r
  from_joining checking h r = from_testing c e w off (thread_then r (skip off))
  from_joining waiting h r = from_testing c e w off (thread_then r time_out)
  from_joining finished h r = from_finished c e w off r

wake-exists : (p : Place) → exists (wake p) ≡ exists p
wake-exists absent = refl
wake-exists testing = refl
wake-exists working = refl
wake-exists notifying = refl
wake-exists checking = refl
wake-exists waiting = refl
wake-exists finished = refl

stopping-exists :
    (running : Bool) (p : Place)
    → consistent running p stopping ≡ true
    → (running ≡ false) × (exists p ≡ true)
stopping-exists true p h = cc
stopping-exists false p h = (refl, h)

-- Whatever steps the threads of a new controller have made: if the caller has cleared `running` in
-- `stop`, and the resolver, asked from here, returns with an answer that can be delivered, then some
-- steps lead to where the caller is in no method and the thread is gone.
pub stop_returns :
    (name : Bytes) (w : World) (c : Client) (e' : EthernetController) (w' : World)
    → Reach (initial name w) c
    → c.caller ≡ stopping
    → renew (c.controller, c.world) ≡ (ok tt, (e', w'))
    → Stops c
stop_returns name w c e' w' reach at_stop done =
    let h = Reach-IsConsistent reach refl in
    let (off, there) =
      stopping-exists (is_running c.controller) c.thread
        (ap (λ a. consistent (is_running c.controller) c.thread a) (sym at_stop) ∙ h) in
    let first : Reach c (at c.controller c.world c.thread stopping) =
      subst (λ a. Reach c (at c.controller c.world c.thread a)) at_stop here in
    from_joining c c.controller e' c.world w' done off (wake c.thread)
      (wake-exists c.thread ∙ there) (caller_then (caller_then first notify_timer) trigger_returns)
