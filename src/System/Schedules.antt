-- ===== src/System/Schedules.antt =====
-- `start` and `stop` of cpp/SinkSDDS.cpp as sequences of steps.
use sink_sdds.Base.{◌≡◌, refl, sym, subst, ap, Bool, false, List, if_split, if_both}
use sink_sdds.Processor.Types.{octet, short, float, Env, Read}
use sink_sdds.Processor.Loop.{shutdown}
use sink_sdds.Processor.Lifecycle.{join}
use sink_sdds.Component.{Component, with_proc}
use sink_sdds.Component.Session.{connect_and_run, setup_socket, usable, start, stop}
use sink_sdds.Sockets.{Os}
use sink_sdds.System.Waiting.{Reach-trans, join-Reach}
use sink_sdds.System.{
  System, Control, configured, at_rest, run_short, run_float, set_started, octet_first,
  short_second, float_third, Reach, here, next, starts, fails, runs, tells, halts, gives_up, closes,
  float_first, octet_third, told, join_float, join_short, join_octet, close, started,
}

module _ (E : Env) where
  -- On every branch, the whole of `start` is a sequence of steps from a component at rest.
  start-Reach :
      (os : Os) (rs : List Read) (s : System)
      → s.control ≡ at_rest
      → Reach E s (record s { component = (start E os rs s.component).0; control = at_rest })
  unfolding start connect_and_run
  start-Reach os rs s rest =
      let c : Component = s.component in
      let ready : Component = (setup_socket os (configured c)).0 in
      let end : Component → System = λ d. record s { component = d; control = at_rest } in
      let Meant : Component × Bool → Type 0 = λ r. Reach E s (end r.0) in
      if_split Meant c.started _ _
        (λ e. subst (Reach E s) (ap (λ (k : Control). record s { control = k }) rest) here)
        (λ e.
          if_split Meant (usable (setup_socket os (configured c)).1) _ _
            (λ u.
              next
                (next
                  (next
                    (next (next here (starts os rest e u refl))
                      (runs octet run_short rs octet_first refl))
                    (runs short run_float rs short_second refl))
                  (runs float set_started rs float_third refl))
                (started refl refl))
            (λ u. next here (
              fails os rest e u
                (ap (λ (k : Control). record s { component = ready; control = k }) (sym rest)))))

  -- So is the whole of `stop`, whether the framework's `stopThread` succeeds or not: while it waits,
  -- the three threads take their steps to the end.
  stop-Reach :
      (died : Bool) (floats shorts octets : List Read) (s : System)
      → s.control ≡ at_rest
      → Reach E s (record s {
        component = (stop E died floats shorts octets s.component).0;
        control = at_rest;
      })
  unfolding stop shutdown
  stop-Reach died floats shorts octets s rest =
      let c : Component = s.component in
      let quiet : Component = record c {
        floatproc = shutdown c.floatproc;
        shortproc = shutdown c.shortproc;
        octetproc = shutdown c.octetproc;
      } in
      let at_told : Reach E s (record s { component = quiet; control = told }) =
        next here (tells rest refl) in
      let waits : System = record s {
        component = record quiet { started = false };
        control = join_float;
      } in
      let one : System = record waits {
        component = with_proc float (join E floats quiet.floatproc) waits.component;
        control = join_short;
      } in
      let two : System = record one {
        component = with_proc short (join E shorts quiet.shortproc) one.component;
        control = join_octet;
      } in
      let three : System = record two {
        component = with_proc octet (join E octets quiet.octetproc) two.component;
        control = close;
      } in
      if_both
        (λ (r : Component × Bool). Reach E s (record s { component = r.0; control = at_rest })) died
        _ _
        (next
          (Reach-trans E s two three
            (Reach-trans E s one two
              (Reach-trans E s waits one (next at_told (halts refl refl))
                (join-Reach E float floats waits join_short float_first))
              (join-Reach E short shorts one join_octet short_second))
            (join-Reach E octet octets two close octet_third))
          (closes refl refl))
        (next at_told (gives_up refl refl))
