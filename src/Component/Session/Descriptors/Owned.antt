-- ===== src/Component/Session/Descriptors/Owned.antt =====
-- What a component of cpp/SinkSDDS.cpp has open on its courses through `start` and `stop`.
use sink_sdds.Base.{
  ℕ, ◌<◌, ◌≡◌, ◌≢◌, ◌⊎◌, inl, inr, refl, sym, ap, subst, ◌∙◌, Bool, true, false, List, [], ◌∷◌,
  ◌++◌, arith, if◌then◌else◌, ◌==◌, Bool-cases, if_both, if_split,
}
use sink_sdds.Settings.{NetworkSettings}
use sink_sdds.Processor.Types.{
  Native, octet, short, float, Processor, Env, Read, Stream, Connection,
}
use sink_sdds.Sockets.{Os, Opened, opened, thrown, minus_one, is_negative, any_match}
use sink_sdds.Sockets.Resources.{Resources, close_fd, left}
use sink_sdds.Sockets.Resources.Left.{Ended}
use sink_sdds.Component.{
  Component, create, new_stream, streams_done, promote, give, with_proc, deck, with_deck,
  stream_is_active, stream_is_on_deck, drop_on_deck_stream,
}
use sink_sdds.Component.Decks.{streams_done_cases}
use sink_sdds.Component.Session.{open_server, start, stop, set_network_settings_struct}
use sink_sdds.Component.Session.Lifetime.{stop_lem}
use sink_sdds.Component.Session.Descriptors.{
  open_server_in, start_in, stop_in, nothing_open, owned, Course, created, starts, stops, sets,
  hears, calls_back,
}
use sink_sdds.Component.Session.Opening.{by_result, attempt, start-again}
use sink_sdds.Component.Session.Descriptors.Attempt.{
  open_server_in-left, open_server-Ended, start-attempt,
}

-- `stop` will close the socket exactly if it is open.
abbrev IsClosable : Bool → ℕ → Type 0
IsClosable true sock = sock ≢ 0
IsClosable false sock = (sock ≡ 0) ⊎ (sock ≡ minus_one)

abbrev Account : Connection × Bool → Resources → Type 0
Account (k, started) r = (r ≡ owned started k) × IsClosable started k.sock

attempt-Account :
    (os : Os) (n : NetworkSettings)
    → open_server os n ≢ thrown
    → 0 < os.socket
    → Account
        (attempt os n)
        (if any_match n.ip_address then nothing_open else (open_server_in os n nothing_open).1)
attempt-Account os n fine positive = elim (Bool-cases (any_match n.ip_address)) [
  | inl blank ↦ rw blank (refl, inl refl)
  | inr given ↦
      rw (given, open_server_in-left os n nothing_open)
        (of_result (open_server os n) (open_server-Ended os n) fine)
]
  where
    of_result :
        (o : Opened) → Ended os o → o ≢ thrown → Account (by_result o) (left os o nothing_open)
    of_result thrown h ok = absurd (ok refl)
    of_result (opened k) (inl unset) ok =
        let negative : is_negative k.sock ≡ true = ground (arith, unset) in
        let same : (k.sock == minus_one) ≡ true = ground (arith, unset) in
        rw (negative, same) (refl, inr unset)
    of_result (opened k) (inr (same, valid)) ok =
        let kept : is_negative k.sock ≡ false = ground (arith, same, valid) in
        let other : (k.sock == minus_one) ≡ false = ground (arith, kept) in
        let real : k.sock ≢ 0 = omega (arith, same) in rw (kept, other) (refl, real)

owned-idle : (started : Bool) (k : Connection) → started ≡ false → owned started k ≡ nothing_open
owned-idle true k off = absurd (cc)
owned-idle false k off = refl

-- `start` opens a socket only when none is open.
start-Account :
    (E : Env) (os : Os) (rs : List Read) (c : Component) (r : Resources)
    → open_server os c.network_settings ≢ thrown
    → 0 < os.socket
    → Account (c.connection, c.started) r
    → let d = (start E os rs c).0 in Account (d.connection, d.started) (start_in os c r)
unfolding start_in
start-Account E os rs c r fine positive v =
    let d : Component = (start E os rs c).0 in
    let opening : Resources → Resources = λ x.
      if any_match c.network_settings.ip_address
      then x
      else (open_server_in os c.network_settings x).1 in
    if_split (Account (d.connection, d.started)) c.started r (opening r)
      (λ on.
        subst (λ (x : Component). Account (x.connection, x.started) r)
          (sym (ap (λ (x : Component × Bool). x.0) (start-again E os rs c on))) v)
      (λ idle.
        let none_open : r ≡ nothing_open = v.0 ∙ owned-idle c.started c.connection idle in
        let (connection, goes_on) = start-attempt E os rs c idle in
        rw (connection, goes_on, none_open) (attempt-Account os c.network_settings fine positive))

closed :
    (started : Bool) (k : Connection)
    → IsClosable started k.sock
    → let r = owned started k in (if k.sock == 0 then r else close_fd k.sock r) ≡ nothing_open
closed true k closable = ground arith
closed false k closable = ground arith

idle-IsClosable : (started : Bool) (sock : ℕ) → started ≡ false → sock ≡ 0 → IsClosable started sock
idle-IsClosable true sock off zero_sock = absurd (cc)
idle-IsClosable false sock off zero_sock = inl zero_sock

stop-Account :
    (E : Env) (floats shorts octets : List Read) (c : Component) (r : Resources)
    → Account (c.connection, c.started) r
    → let d = (stop E true floats shorts octets c).0 in
      Account (d.connection, d.started) (stop_in true c r)
unfolding stop_in
stop-Account E floats shorts octets c r (open_now, closable) =
    let d : Component = (stop E true floats shorts octets c).0 in
    let stopped = stop_lem E floats shorts octets c in
    (
      ap (λ (x : Resources). if c.connection.sock == 0 then x else close_fd c.connection.sock x)
            open_now
          ∙ (closed c.started c.connection closable
              ∙ sym (owned-idle d.started d.connection stopped.0)),
      idle-IsClosable d.started d.connection.sock stopped.0 stopped.4,
    )

-- The connection, and whether the component is started, are as they were.
abbrev SameSession : Component → Component → Type 0
SameSession c d = (d.connection ≡ c.connection) × (d.started ≡ c.started)

with_proc-SameSession :
    (n : Native) (p : Processor) (c : Component) → SameSession c (with_proc n p c)
with_proc-SameSession octet p c = (refl, refl)
with_proc-SameSession short p c = (refl, refl)
with_proc-SameSession float p c = (refl, refl)

with_deck-SameSession :
    (n : Native) (d : List Stream) (b c : Component)
    → SameSession b c
    → SameSession b (with_deck n d c)
with_deck-SameSession octet d b c h = h
with_deck-SameSession short d b c h = h
with_deck-SameSession float d b c h = h

drop_on_deck_stream-SameSession : (c : Component) → SameSession c (drop_on_deck_stream c)
unfolding drop_on_deck_stream
drop_on_deck_stream-SameSession c = ground arith

new_stream-SameSession :
    (E : Env) (n : Native) (rs : List Read) (x : Stream) (c : Component)
    → SameSession c (new_stream E rs n x c)
unfolding new_stream
new_stream-SameSession E n rs x c =
    let cleared : Component = (if stream_is_on_deck c then drop_on_deck_stream c else c) in
    if_both (SameSession c) (stream_is_active c) _ (give E rs n x c)
      (with_deck-SameSession n (deck n cleared ++ record x { enabled = false } ∷ []) c cleared (
        if_both (SameSession c) (stream_is_on_deck c) _ c (drop_on_deck_stream-SameSession c)
          (refl, refl)))
      (with_proc-SameSession n _ c)

streams_done-SameSession :
    (E : Env) (rs : List Read) (c : Component) → SameSession c (streams_done E rs c)
unfolding promote
streams_done-SameSession E rs c =
    streams_done_cases E rs (SameSession c) c (λ _. (refl, refl))
      (λ n x _. with_deck-SameSession n [] c _ (with_proc-SameSession n _ c))

Account-same :
    (c d : Component) (r : Resources)
    → SameSession c d
    → Account (c.connection, c.started) r
    → Account (d.connection, d.started) r
Account-same c d r (k, s) v = rw (k, s) v

Course-Account :
    (E : Env) (c : Component) (r : Resources) → Course E c r → Account (c.connection, c.started) r
unfolding create set_network_settings_struct
Course-Account E _ _ (created f s o) = (refl, inl refl)
Course-Account E _ _ (starts os rs h fine positive) =
    start-Account E os rs _ _ fine positive (Course-Account E _ _ h)
Course-Account E _ _ (stops fs ss os h) = stop-Account E fs ss os _ _ (Course-Account E _ _ h)
Course-Account E _ r (sets {c} n h) =
    if_both (λ (d : Component). Account (d.connection, d.started) r) c.started c _
      (Course-Account E c r h) (Course-Account E c r h)
Course-Account E _ r (hears {c} n rs x h) =
    Account-same c (new_stream E rs n x c) r (new_stream-SameSession E n rs x c)
      (Course-Account E c r h)
Course-Account E _ r (calls_back {c} rs h) =
    Account-same c (streams_done E rs c) r (streams_done-SameSession E rs c)
      (Course-Account E c r h)

-- On every such course, what is open is the socket of the connection while the component is started, and
-- nothing while it is not; no buffer is left.
pub Course-owned :
    (E : Env) (c : Component) (r : Resources) → Course E c r → r ≡ owned c.started c.connection
Course-owned E c r h = (Course-Account E c r h).0
