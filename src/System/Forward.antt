-- ===== src/System/Forward.antt =====
-- The operations of the component that leave the deck alone and in which no processor falls back.
use text.Mathlib.Text.{◌==◌ as str_eq}
use sink_sdds.Settings.{NetworkSettings, SddsSettings, OverrideSddsHeader}
use sink_sdds.Base.{
  ℕ, ◌+◌, ◌≤◌, ◌≡◌, refl, String, some, List, [], ◌∷◌, arith, if◌then◌else◌, if_both, ◌==◌,
}
use sink_sdds.Processor.Types.{Native, octet, short, float, Processor}
use sink_sdds.Processor.Calls.{push_sri_to}
use sink_sdds.Processor.Lifecycle.{
  set_sdds_settings, set_override_header_settings, set_attach_settings,
}
use sink_sdds.Component.{Component, no_connection, proc, with_proc}
use sink_sdds.Component.Decks.{deck_count}
use sink_sdds.Component.Session.{
  configure, setup_socket, close_connection, push_to_connections, new_connection_made,
  set_override_sdds_header_struct, set_sdds_settings_struct, set_network_settings_struct,
}
use sink_sdds.Component.Session.Lifetime.{setup_socket-IsKept}
use sink_sdds.Sockets.{Os}
use sink_sdds.System.{called_back, configured}
use sink_sdds.System.Attention.{busy, Advances, Advances-same, push_sri_to-Advances}

abbrev pub busy_count : Component → ℕ
busy_count c = busy c.floatproc + busy c.shortproc + busy c.octetproc

-- The deck is as it was, and no processor falls back.
pub record Forward (c d : Component) : Type 0 where
  pub more_calls : called_back c ≤ called_back d
  pub attention : busy_count c + called_back c ≤ busy_count d + called_back d
  pub same_deck : deck_count d ≡ deck_count c

Forward-refl : (c : Component) → Forward c c
Forward-refl c = omega arith

Forward-trans : (c d e : Component) → Forward c d → Forward d e → Forward c e
Forward-trans c d e f g = omega arith

Forward-three :
    (c d : Component)
    → Advances c.floatproc d.floatproc
    → Advances c.shortproc d.shortproc
    → Advances c.octetproc d.octetproc
    → deck_count d ≡ deck_count c
    → Forward c d
Forward-three c d f s o e = omega arith

pub with_proc-Forward :
    (n : Native) (q : Processor) (c : Component)
    → Advances (proc n c) q
    → Forward c (with_proc n q c)
with_proc-Forward octet q c a = omega arith
with_proc-Forward short q c a = omega arith
with_proc-Forward float q c a = omega arith

same : (p : Processor) → Advances p p
same p = Advances-same p p refl refl refl

configure-Advances : (c : Component) (p : Processor) → Advances p (configure c p)
unfolding configure set_sdds_settings set_override_header_settings set_attach_settings
configure-Advances c p = ground arith

pub setup_socket-Forward : (os : Os) (c : Component) → Forward c (setup_socket os (configured c)).0
setup_socket-Forward os c =
    let kept = setup_socket-IsKept os (configured c) in
    Forward-three c (setup_socket os (configured c)).0
      (rw kept.1 (configure-Advances c c.floatproc)) (rw kept.2 (configure-Advances c c.shortproc))
      (rw kept.3 (configure-Advances c c.octetproc)) kept.4

connections-Forward :
    (id : String) (connections : List (String × String)) (c : Component)
    → Forward c (push_to_connections id connections c)
unfolding push_to_connections
connections-Forward id [] c = Forward-refl c
connections-Forward id ((other, port) ∷ rest) c =
    let pushed : Component = record c {
      shortproc = push_sri_to (some port) c.shortproc;
      floatproc = push_sri_to (some port) c.floatproc;
      octetproc = push_sri_to (some port) c.octetproc;
    } in
    let d : Component = (if str_eq id other then pushed else c) in
    let one : Forward c d =
      if_both (Forward c) (str_eq id other) pushed c
        (Forward-three c pushed (push_sri_to-Advances (some port) c.floatproc)
          (push_sri_to-Advances (some port) c.shortproc)
          (push_sri_to-Advances (some port) c.octetproc) refl)
        (Forward-refl c) in
    Forward-trans c d (push_to_connections id rest d) one (connections-Forward id rest d)

pub new_connection_made-Forward :
    (id : String) (connections : List (String × String)) (c : Component)
    → Forward c (new_connection_made id connections c)
unfolding new_connection_made
new_connection_made-Forward id connections c =
    if_both (Forward c) c.started _ c (connections-Forward id connections c) (Forward-refl c)

pub setters-Forward :
    (c : Component)
    → ((o : OverrideSddsHeader) → Forward c (set_override_sdds_header_struct o c))
      × ((o : SddsSettings) → Forward c (set_sdds_settings_struct o c))
      × ((o : NetworkSettings) → Forward c (set_network_settings_struct o c))
unfolding set_override_sdds_header_struct set_sdds_settings_struct set_network_settings_struct
setters-Forward c = (
  λ o.
      if_both (Forward c) c.started c (record c { override_sdds_header = o }) (Forward-refl c)
        (omega arith),
  λ o.
      if_both (Forward c) c.started c (record c { sdds_settings = o }) (Forward-refl c)
        (omega arith),
  λ o.
      if_both (Forward c) c.started c (record c { network_settings = o }) (Forward-refl c)
        (omega arith),
)

pub close_connection-Forward : (c : Component) → Forward c (close_connection c)
close_connection-Forward c =
    if_both (Forward c) (c.connection.sock == 0) c (record c { connection = no_connection })
      (Forward-refl c) (omega arith)
