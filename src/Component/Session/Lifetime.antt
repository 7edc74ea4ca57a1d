-- ===== src/Component/Session/Lifetime.antt =====
-- Starting and stopping: what `start` and `stop` of cpp/SinkSDDS.cpp leave behind.
use sink_sdds.Base.{
  ℕ, ◌≡◌, ◌⊎◌, inl, inr, refl, ap, ◌∙◌, Bool, true, false, not, Option, some, List, arith, ◌==◌,
  if_both, if_split, Bool-cases,
}
use sink_sdds.Processor.Types.{
  Env, Read, Thread, null, spawned, testing, reading, finished, Processor,
}
use sink_sdds.Processor.Loop.{shutdown, run_thread, end_run}
use sink_sdds.Processor.Lifecycle.{complete, join, run, set_connection}
use sink_sdds.Sockets.{Os, Opened, opened, thrown, any_match, minus_one}
use sink_sdds.Component.Decks.{deck_count}
use sink_sdds.Component.{Component, no_connection}
use sink_sdds.Component.Session.Opening.{
  attempt, handed, reached, finish, start-finish, start-again,
}
use sink_sdds.Component.Session.{connected, open_server, setup_socket, connect_and_run, start, stop}

-- Whether a thread is there that has not ended.
abbrev pub is_alive : Thread → Bool
is_alive null = false
is_alive spawned = true
is_alive testing = true
is_alive reading = true
is_alive finished = false

abbrev pub IsKept : Component → Component → Type 0
IsKept c d =
    (d.started ≡ c.started)
    × (d.floatproc ≡ c.floatproc)
    × (d.shortproc ≡ c.shortproc)
    × (d.octetproc ≡ c.octetproc)
    × (deck_count d ≡ deck_count c)

connected-IsKept : (c : Component) (o : Opened) → IsKept c (connected c o).0
connected-IsKept c (opened connection) = (refl, refl, refl, refl, refl)
connected-IsKept c thrown = (refl, refl, refl, refl, refl)

pub setup_socket-IsKept : (os : Os) (c : Component) → IsKept c (setup_socket os c).0
unfolding setup_socket
setup_socket-IsKept os c =
    if_both (λ (r : Component × Option ℕ). IsKept c r.0) (any_match c.network_settings.ip_address)
      (record c { connection = no_connection }, some minus_one)
      (connected c (open_server os c.network_settings)) (refl, refl, refl, refl, refl)
      (connected-IsKept c (open_server os c.network_settings))

module _ (E : Env) where
  complete-flag :
      (reads : List Read) (t : Thread) (p : Processor)
      → p.shutdown_flag ≡ true
      → (complete E reads t p).shutdown_flag ≡ not (is_alive t)
  unfolding complete run_thread end_run
  complete-flag reads null p h = h
  complete-flag reads spawned p h = refl
  complete-flag reads testing p h = refl
  complete-flag reads reading p h = refl
  complete-flag reads finished p h = h

  -- A processor that is told to shut down and joined has no thread. Its `m_shutdown` is cleared again
  -- exactly if it had a thread that had not ended.
  pub join-shutdown :
      (reads : List Read) (p : Processor)
      → ((join E reads (shutdown p)).thread ≡ null)
        × ((join E reads (shutdown p)).shutdown_flag ≡ not (is_alive p.thread))
  unfolding join shutdown
  join-shutdown reads p =
      (refl, complete-flag reads p.thread (record p { shutdown_flag = true }) refl)

  -- After a `stop` that does not throw, the component is not started, no processor has a thread and the
  -- socket is 0; and `m_shutdown` is set in exactly those processors that had no live thread.
  pub stop_lem :
      (floats shorts octets : List Read) (c : Component)
      → let d = (stop E true floats shorts octets c).0 in
        (d.started ≡ false)
        × (d.floatproc.thread ≡ null)
        × (d.shortproc.thread ≡ null)
        × (d.octetproc.thread ≡ null)
        × (d.connection.sock ≡ 0)
        × (d.floatproc.shutdown_flag ≡ not (is_alive c.floatproc.thread))
        × (d.shortproc.shutdown_flag ≡ not (is_alive c.shortproc.thread))
        × (d.octetproc.shutdown_flag ≡ not (is_alive c.octetproc.thread))
  unfolding stop
  stop_lem floats shorts octets c =
      let f = join-shutdown floats c.floatproc in
      let s = join-shutdown shorts c.shortproc in
      let o = join-shutdown octets c.octetproc in
      (
        if_both (λ (d : Component). d.started ≡ false) (c.connection.sock == 0) _ _ refl refl,
        if_both (λ (d : Component). d.floatproc.thread ≡ null) (c.connection.sock == 0) _ _ f.0 f.0,
        if_both (λ (d : Component). d.shortproc.thread ≡ null) (c.connection.sock == 0) _ _ s.0 s.0,
        if_both (λ (d : Component). d.octetproc.thread ≡ null) (c.connection.sock == 0) _ _ o.0 o.0,
        if_split (λ (d : Component). d.connection.sock ≡ 0) (c.connection.sock == 0) _ _
            (λ e. ground (arith, e)) (λ _. refl),
        if_both (λ (d : Component). d.floatproc.shutdown_flag ≡ not (is_alive c.floatproc.thread))
            (c.connection.sock == 0) _ _ f.1 f.1,
        if_both (λ (d : Component). d.shortproc.shutdown_flag ≡ not (is_alive c.shortproc.thread))
            (c.connection.sock == 0) _ _ s.1 s.1,
        if_both (λ (d : Component). d.octetproc.shutdown_flag ≡ not (is_alive c.octetproc.thread))
            (c.connection.sock == 0) _ _ o.1 o.1,
      )

  -- A `start` of a started component changes nothing and does not throw. Any other `start` has handed
  -- each processor its settings, and nothing else, when it opens a socket. If that gives no socket,
  -- because the address is empty, the opening throws or the socket is negative, `start` throws
  -- StartError, the component is not started, and beside the settings only its connection is
  -- changed. Otherwise `start` does not throw, the component is started with the connection
  -- opened, each processor is run with this connection and the VLAN, and nothing else is changed.
  pub start_lem :
      (os : Os) (reads : List Read) (c : Component)
      → let (connection, goes_on) = attempt os c.network_settings in
        let launched : Processor → Processor = λ p.
          run E reads
            (record (handed c p) { connection = connection; vlan = c.network_settings.vlan }) in
        ((c.started ≡ true) × (start E os reads c ≡ (c, true)))
        ⊎ ((c.started ≡ false)
            × (goes_on ≡ true)
            × (start E os reads c ≡ (
              record c {
                started = true;
                connection = connection;
                floatproc = launched c.floatproc;
                shortproc = launched c.shortproc;
                octetproc = launched c.octetproc;
              },
              true,
            )))
        ⊎ ((c.started ≡ false)
            × (goes_on ≡ false)
            × (start E os reads c ≡ (
              record c {
                connection = connection;
                floatproc = handed c c.floatproc;
                shortproc = handed c c.shortproc;
                octetproc = handed c c.octetproc;
              },
              false,
            )))
  unfolding connect_and_run set_connection
  start_lem os reads c = elim (Bool-cases c.started) [
    | inl on ↦ inl (on, start-again E os reads c on)
    | inr off ↦ elim (Bool-cases (attempt os c.network_settings).1) [
      | inl good ↦
          inr (
            inl
              (off, good, start-finish E os reads c off ∙ ap (finish E reads (reached os c)) good))
      | inr bad ↦
          inr
            (inr (off, bad, start-finish E os reads c off ∙ ap (finish E reads (reached os c)) bad))
    ]
  ]
