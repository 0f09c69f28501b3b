-- ===== src/EthernetController/Thread/Running.antt =====
-- The work of the thread does not set `running`.
use tu_thesis.Base.{◌∙◌, ◌++◌, ◌≡◌, refl, Bool, Option, none, some, [], ◌∷◌}
use tu_thesis.Text.Bytes.{Bytes, bytes}
use tu_thesis.Text.Number.{stoi}
use tu_thesis.Text.Stream.{Stream, getline, line_or, open_stream}
use tu_thesis.Exec.{on_object, on_world, lift}
use tu_thesis.Exec.Preserves.{Preserves, bind-Preserves, pure-Preserves}
use tu_thesis.World.{World, DhcpClient, EthernetController}
use tu_thesis.System.{exec}
use tu_thesis.DhcpClient.{
  Reading, assign_line, read_field, read_lease, read_dns, read_line, receive,
}
use tu_thesis.EthernetController.{renew, deliver, on_client, configure_interface}
use tu_thesis.EthernetController.Thread.{is_running}

module _ (running : Bool) where
  abbrev Reads : {A : Type 0} → Reading A → Type 0
  Reads m = Preserves {S = DhcpClient × Stream} (λ (c, s). c.running ≡ running) m

  assign_line-running :
      (set : Bytes → DhcpClient → DhcpClient) (line : Option Bytes) (c : DhcpClient)
      → ((t : Bytes) → (set t c).running ≡ c.running)
      → c.running ≡ running
      → (assign_line set line c).running ≡ running
  assign_line-running set none c keeps h = h
  assign_line-running set (some line) c keeps h = keeps line ∙ h

  read_field-Reads :
      (set : Bytes → DhcpClient → DhcpClient)
      → ((t : Bytes) (c : DhcpClient) → (set t c).running ≡ c.running)
      → Reads (read_field set)
  unfolding read_field
  read_field-Reads set keeps = record {
    holds = λ (c, s) h. assign_line-running set (getline b',' s).line c (λ t. keeps t c) h;
  }

  read_lease-Reads : Reads read_lease
  unfolding read_lease
  read_lease-Reads = record {
    holds = λ (c, s) h.
        (bind-Preserves {Q = λ (c, s). c.running ≡ running}
            (on_object (lift (stoi (line_or [] (getline b',' s))))) _ (record { holds = λ t h. h })
            (λ n. record { holds = λ t h. h })).holds
          (c, (getline b',' s).stream) h;
  }

  read_line-Reads : Reads read_line
  unfolding read_line read_dns
  read_line-Reads = bind-Preserves _ _ (read_field-Reads _ (λ t c. refl)) λ _.
      bind-Preserves _ _ (read_field-Reads _ (λ t c. refl)) λ _.
        bind-Preserves _ _ (read_field-Reads _ (λ t c. refl)) λ _.
          bind-Preserves _ _ (read_field-Reads _ (λ t c. refl)) λ _.
            bind-Preserves _ _ (read_field-Reads _ (λ t c. refl))
              λ _. bind-Preserves _ _ read_lease-Reads λ _. record { holds = λ s h. h }

  abbrev Runs : EthernetController × World → Type 0
  Runs (e, w) = is_running e ≡ running

  deliver-Runs : (text : Bytes) → Preserves Runs (deliver text)
  unfolding receive configure_interface
  deliver-Runs [] = pure-Preserves _
  deliver-Runs (x ∷ text) =
      bind-Preserves (on_client (receive (x ∷ text))) _
        (record {
          holds = λ (e, w) h. read_line-Reads.holds (e.dhcp_client, open_stream (x ∷ text)) h;
        })
        (λ _. record { holds = λ s h. h })

  renew-Runs : Preserves Runs renew
  unfolding renew
  renew-Runs = record {
    holds = λ (e, w) h.
        (bind-Preserves (on_world (exec (bytes "./dhcpresolver -T " ++ e.dhcp_client.interface)))
            deliver (record { holds = λ s h. h }) deliver-Runs).holds
          (e, w) h;
  }

pub renew_running :
    (e : EthernetController) (w : World) → is_running (renew (e, w)).1.0 ≡ is_running e
renew_running e w = (renew-Runs (is_running e)).holds (e, w) refl
