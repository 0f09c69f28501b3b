-- ===== src/Interface/Changes.antt =====
-- What a change of an interface does, and who is told.
use tu_thesis.Base.{
  if◌then◌else◌, ℕ, ◌+◌, ◌≡◌, refl, ap, ◌∙◌, sym, some, List, [], ◌∷◌, ◌++◌, append_assoc,
  Bool-cases, inl, inr, ◌==◌, arith,
}
use tu_thesis.Text.Bytes.{bytes}
use tu_thesis.Exec.{ok, throw, runtime_error}
use tu_thesis.Map
use tu_thesis.Map.{Map, nat_key, lookup-insert, lookup-insert_self}
use tu_thesis.System.{issue, call_or_throw_lem}
use tu_thesis.World.{World, Interface, Ip, Notice, gateway_is, ip_is, Spawn}
use tu_thesis.Interface.{notices, ip_command, set_ip, set_gw, register_gateway_callback}

-- A thread that runs the callback with the notice was started.
pub record Told (callback : ℕ) (notice : Notice) (threads : List Spawn) : Type 0 where
  pub before : List Spawn
  pub after : List Spawn
  pub is_list : threads ≡ before ++ (record { callback = callback; notice = notice } ∷ after)

notices-Told :
    (id callback : ℕ) (notice : Notice) (entries : List (ℕ × ℕ))
    → Map.find_entry id entries ≡ some callback
    → Told callback notice (notices notice entries)
unfolding notices Map.find_entry
notices-Told id callback notice [] h = cc
notices-Told id callback notice ((j, f) ∷ entries) h = elim (Bool-cases (j == id)) [
  | inl e ↦ record {
    before = [];
    after = notices notice entries;
    is_list =
        ap (λ k. record { callback = k; notice = notice } ∷ notices notice entries) (ground arith);
  }
  | inr e ↦
      let t = notices-Told id callback notice entries (ground arith) in
      record {
        before = record { callback = f; notice = notice } ∷ t.before;
        after = t.after;
        is_list = ap (◌∷◌ (record { callback = f; notice = notice })) t.is_list;
      }
]

more-Told :
    (callback : ℕ) (notice : Notice) (earlier threads : List Spawn)
    → Told callback notice threads
    → Told callback notice (earlier ++ threads)
more-Told callback notice earlier threads t = record {
  before = earlier ++ t.before;
  after = t.after;
  is_list = ap (◌++◌ earlier) t.is_list ∙ sym (append_assoc earlier t.before _);
}

set_gw-Told :
    (id callback : ℕ) (ip : Ip) (i : Interface) (w : World)
    → Map.lookup id i.gateway_callbacks ≡ some callback
    → Told callback (gateway_is ip) (set_gw ip (i, w)).1.1.spawned
unfolding set_gw Map.lookup
set_gw-Told id callback ip i w h =
    more-Told callback (gateway_is ip) w.spawned _
      (notices-Told id callback (gateway_is ip) i.gateway_callbacks.entries h)

-- Two callbacks that are registered one after the other are both run with the gateway that is set
-- next.
pub set_gw_runs_both :
    (f g : ℕ) (ip : Ip) (i : Interface) (w : World)
    → let first = (register_gateway_callback f (i, w)).1 in
      let (j, v) = (register_gateway_callback g first).1 in
      Told f (gateway_is ip) (set_gw ip (j, v)).1.1.spawned
      × Told g (gateway_is ip) (set_gw ip (j, v)).1.1.spawned
unfolding register_gateway_callback
set_gw_runs_both f g ip i w =
    let id = w.callback_ids.next_gateway in
    (
      set_gw-Told id f ip _ _ (
          lookup-insert (id + 1) id g (Map.insert id f i.gateway_callbacks)
          ∙ ground (arith, lookup-insert_self id f i.gateway_callbacks)),
      set_gw-Told (id + 1) g ip _ _ (lookup-insert_self (id + 1) g _),
    )

pub set_ip_lem :
    (ip mask : Ip) (i : Interface) (w : World)
    → let cmd = ip_command i.interface_name ip mask in
      set_ip ip mask (i, w) ≡ (
        if w.shell w.trace cmd == 0
        then (
          ok tt,
          (
            record i { ip = ip; mask = mask },
            record (issue cmd w) {
              spawned = w.spawned ++ notices (ip_is ip mask) i.ip_callbacks.entries;
            },
          ),
        )
        else (throw (runtime_error (bytes "Failed to setup the interface")), (i, issue cmd w)))
unfolding set_ip
set_ip_lem ip mask i w =
    elim (Bool-cases (w.shell w.trace (ip_command i.interface_name ip mask) == 0)) [
      | inl e ↦ rw call_or_throw_lem (rw e refl)
      | inr e ↦ rw call_or_throw_lem (rw e refl)
    ]
