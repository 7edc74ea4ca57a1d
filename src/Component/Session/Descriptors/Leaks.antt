-- ===== src/Component/Session/Descriptors/Leaks.antt =====
-- The orders of calls of cpp/SinkSDDS.cpp after which a socket is open that no member holds.
use sink_sdds.Base.{
  ◌≡◌, refl, sym, ap, subst, ◌∙◌, Bool, true, false, not, List, ◌∷◌, if◌then◌else◌, ◌==◌,
}
use sink_sdds.Processor.Types.{Env, Read, Connection}
use sink_sdds.Sockets.{Os, opened, thrown, minus_one, is_negative, any_match}
use sink_sdds.Sockets.Resources.{Resources, close_fd, left}
use sink_sdds.Component.{Component, no_connection}
use sink_sdds.Component.Session.{open_server, start, stop}
use sink_sdds.Component.Session.Descriptors.{start_in, stop_in}
use sink_sdds.Component.Session.Opening.{attempt}
use sink_sdds.Component.Session.Descriptors.Attempt.{open_server_in-left, start-attempt}

module _ (E : Env) (os : Os) (rs : List Read) (c : Component) (r : Resources)
    (idle : c.started ≡ false) (given : any_match c.network_settings.ip_address ≡ false) where
  start_in-left : start_in os c r ≡ left os (open_server os c.network_settings) r
  unfolding start_in
  start_in-left = rw (idle, given) (open_server_in-left os c.network_settings r)

  -- When `start` is called on a component that is not started and has an address, and opening the socket
  -- throws after the socket was made, it leaves a component that is not started and whose connection
  -- is 0, but the socket stays open; and a `stop` that follows does not close it.
  pub start-leaks :
      open_server os c.network_settings ≡ thrown
      → is_negative os.socket ≡ false
      → let d = (start E os rs c).0 in
        (d.started ≡ false)
        × (d.connection ≡ no_connection)
        × ((start_in os c r).sockets ≡ os.socket ∷ r.sockets)
        × ((stop_in true d (start_in os c r)).sockets ≡ os.socket ∷ r.sockets)
  unfolding stop_in
  start-leaks failed made =
      let d : Component = (start E os rs c).0 in
      let nothing : attempt os c.network_settings ≡ (no_connection, false) =
        rw (given, failed) refl in
      let (connection, goes_on) = start-attempt E os rs c idle in
      let cleared : d.connection ≡ no_connection =
        connection ∙ ap (λ (x : Connection × Bool). x.0) nothing in
      let still : (start_in os c r).sockets ≡ os.socket ∷ r.sockets =
        ap (λ (x : Resources). x.sockets) start_in-left ∙ rw (failed, made) refl in
      (
        goes_on ∙ ap (λ (x : Connection × Bool). x.1) nothing,
        cleared,
        still,
        subst
            (λ (k : Connection).
              (if k.sock == 0 then start_in os c r else close_fd k.sock (start_in os c r)).sockets
              ≡ os.socket ∷ r.sockets)
            (sym cleared) still,
      )

-- When `stop` throws StopError on a component that has an address, the socket is not closed. If the next
-- `start` gets a socket, it overwrites the connection with it, and what was open stays open besides.
pub gives_up-leaks :
    (E : Env) (os : Os) (rs floats shorts octets : List Read) (c : Component) (r : Resources)
    (k : Connection)
    → any_match c.network_settings.ip_address ≡ false
    → open_server os c.network_settings ≡ opened k
    → (k.sock == minus_one) ≡ false
    → let d = (stop E false floats shorts octets c).0 in
      ((start E os rs d).0.connection ≡ k)
      × ((start_in os d (stop_in false c r)).sockets ≡ k.sock ∷ r.sockets)
unfolding stop stop_in
gives_up-leaks E os rs floats shorts octets c r k given got valid =
    let d : Component = (stop E false floats shorts octets c).0 in
    let found : attempt os c.network_settings ≡ (k, not (is_negative k.sock)) =
      rw (given, got) refl in
    (
      (start-attempt E os rs d refl).0 ∙ ap (λ (x : Connection × Bool). x.0) found,
      ap (λ (x : Resources). x.sockets) (start_in-left E os rs d r refl given)
          ∙ rw (got, valid) refl,
    )
