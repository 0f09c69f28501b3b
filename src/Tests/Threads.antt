-- ===== src/Tests/Threads.antt =====
-- The thread of the DHCP client on a machine on which the resolver gives nothing.
use tu_thesis.Base.{refl, some, []}
use tu_thesis.Text.Bytes.{bytes}
use tu_thesis.World.{World, EthernetController}
use tu_thesis.System.{issue}
use tu_thesis.EthernetController.{renew, new_controller}
use tu_thesis.EthernetController.Thread.{
  at, after_start, after_stop, ThreadStep, Reach, absent, idle, testing, working, stopping, go_on,
  leave, start_thread, start_returns, clear_running, notify_timer, trigger_returns, join, here,
  thread_then, caller_then,
}
use tu_thesis.EthernetController.Thread.Stopped.{initial, Stops, no_step_after_stop, stop_returns}
use tu_thesis.System.{exec}
use tu_thesis.DhcpClient.{start, stop}
use tu_thesis.EthernetController.Thread.Consistent.{start_running, stop_running}
use tu_thesis.Tests.{quiet, eth0}

-- `popen` gives an empty text.
abbrev no_answer : World
no_answer = record quiet { output = λ _ _. some [] }

-- The client was started, and its thread is at work when `stop` clears `running`.
abbrev started : EthernetController
started = after_start (new_controller eth0)

abbrev stopped : EthernetController
stopped = after_stop started

begun : Reach (initial eth0 no_answer) (at started no_answer testing idle)
begun = caller_then (caller_then here (start_thread {e = new_controller eth0} refl)) start_returns

at_work : Reach (initial eth0 no_answer) (at stopped no_answer working stopping)
at_work =
    caller_then (thread_then begun (go_on (start_running (new_controller eth0))))
      (clear_running {e = started} (start_running (new_controller eth0)))

abbrev asked : World
asked = issue (bytes "./dhcpresolver -T eth0") no_answer

stop_returns_example : Stops (at stopped no_answer working stopping)
unfolding renew exec bytes stop start
stop_returns_example =
    stop_returns eth0 no_answer (at stopped no_answer working stopping) stopped asked at_work refl
      refl

-- The client was started and stopped before its thread had looked at `running`.
stopped_early : Reach (initial eth0 no_answer) (at stopped no_answer absent idle)
stopped_early =
    let clear = clear_running {e = started} (start_running (new_controller eth0)) in
    let joining =
      caller_then (caller_then (caller_then begun clear) notify_timer) trigger_returns in
    caller_then (thread_then joining (leave (stop_running started))) join

no_step_after_stop_example :
    ¬ ThreadStep (at stopped no_answer absent idle) (at stopped no_answer testing idle)
no_step_after_stop_example =
    no_step_after_stop eth0 no_answer (at stopped no_answer absent idle)
      (at stopped no_answer testing idle) stopped_early refl (stop_running started)
