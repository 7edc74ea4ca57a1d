-- ===== src/Component/Session/Opening.antt =====
-- What a call of `start` in cpp/SinkSDDS.cpp hands to the processors, what its attempt to open a socket
-- gives, and how it goes on.
use sink_sdds.Base.{
  ◌≡◌, inl, inr, refl, ap, ◌∙◌, Bool, true, false, not, List, if◌then◌else◌, ◌%◌, arith, Bool-cases,
  if_split,
}
use sink_sdds.Settings.{NetworkSettings}
use sink_sdds.Processor.Types.{Env, Read, Connection, Processor}
use sink_sdds.Processor.Lifecycle
use sink_sdds.Processor.Lifecycle.{set_attach_settings, set_override_header_settings}
use sink_sdds.Sockets.{Os, Opened, opened, thrown, any_match, is_negative}
use sink_sdds.Component.{Component, no_connection}
use sink_sdds.Component.Session.{
  connected, configure, open_server, setup_socket, usable, connect_and_run, start,
}

-- The connection that `start` leaves, and whether it goes on.
abbrev pub by_result : Opened → Connection × Bool
by_result (opened k) = (k, not (is_negative k.sock))
by_result thrown = (no_connection, false)

abbrev pub attempt : Os → NetworkSettings → Connection × Bool
attempt os n =
    if any_match n.ip_address then (no_connection, false) else by_result (open_server os n)

setup_socket-attempt :
    (os : Os) (c : Component)
    → let ready = setup_socket os c in
      (ready.0 ≡ record c { connection = (attempt os c.network_settings).0 })
      × (usable ready.1 ≡ (attempt os c.network_settings).1)
unfolding setup_socket
setup_socket-attempt os c = elim (Bool-cases (any_match c.network_settings.ip_address)) [
  | inl blank ↦ rw blank (refl, refl)
  | inr given ↦ rw given (of_result (open_server os c.network_settings))
]
  where
    of_result :
        (o : Opened)
        → ((connected c o).0 ≡ record c { connection = (by_result o).0 })
          × (usable (connected c o).1 ≡ (by_result o).1)
    of_result (opened k) = (refl, refl)
    of_result thrown = (refl, refl)

-- The settings that a processor has from the component, field by field.
abbrev pub handed : Component → Processor → Processor
handed c p = record p {
  attach_settings = c.attach_settings;
  override = c.override_sdds_header;
  user_settings = if p.running then p.user_settings else c.sdds_settings;
  template = if p.running then p.template else record (p.template) {
    sf = c.sdds_settings.standard_format % 2;
    of = c.sdds_settings.original_format % 2;
    ss = c.sdds_settings.spectral_sense % 2;
  };
}

configure-handed : (c : Component) (p : Processor) → configure c p ≡ handed c p
unfolding configure set_attach_settings set_override_header_settings Lifecycle.set_sdds_settings
configure-handed c p = ground arith

abbrev configured : Component → Component
configured c = record c {
  floatproc = configure c c.floatproc;
  shortproc = configure c c.shortproc;
  octetproc = configure c c.octetproc;
}

-- The component when a socket has been tried.
abbrev pub reached : Os → Component → Component
reached os c = record c {
  connection = (attempt os c.network_settings).0;
  floatproc = handed c c.floatproc;
  shortproc = handed c c.shortproc;
  octetproc = handed c c.octetproc;
}

configured-reached :
    (os : Os) (c : Component)
    → record (configured c) { connection = (attempt os c.network_settings).0 } ≡ reached os c
configured-reached os c =
    rw
      (
        configure-handed c c.floatproc,
        configure-handed c c.shortproc,
        configure-handed c c.octetproc,
      )
      refl

module _ (E : Env) where
  -- What `start` does once it has tried to open a socket.
  abbrev pub finish : List Read → Component → Bool → Component × Bool
  finish reads c true = (
    record c {
      octetproc = connect_and_run E reads c c.octetproc;
      shortproc = connect_and_run E reads c c.shortproc;
      floatproc = connect_and_run E reads c c.floatproc;
      started = true;
    },
    true,
  )
  finish reads c false = (c, false)

  if-finish :
      (reads : List Read) (c : Component) (b : Bool)
      → (if b then finish reads c true else finish reads c false) ≡ finish reads c b
  if-finish reads c true = refl
  if-finish reads c false = refl

  pub start-finish :
      (os : Os) (reads : List Read) (c : Component)
      → c.started ≡ false
      → start E os reads c ≡ finish reads (reached os c) (attempt os c.network_settings).1
  unfolding start
  start-finish os reads c off =
      let ready = setup_socket os (configured c) in
      let (component, goes_on) = setup_socket-attempt os (configured c) in
      if_split (λ r. r ≡ finish reads (reached os c) (attempt os c.network_settings).1) c.started _
        _ (λ on. absurd (cc))
        (λ _.
          if-finish reads ready.0 (usable ready.1)
          ∙ (ap (λ r. finish reads r (usable ready.1)) (component ∙ configured-reached os c)
              ∙ ap (finish reads (reached os c)) goes_on))

  pub start-again :
      (os : Os) (reads : List Read) (c : Component)
      → c.started ≡ true
      → start E os reads c ≡ (c, true)
  unfolding start
  start-again os reads c on =
      if_split (λ r. r ≡ (c, true)) c.started (c, true) _ (λ _. refl) (λ off. absurd (cc))
