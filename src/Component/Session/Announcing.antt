-- ===== src/Component/Session/Announcing.antt =====
-- What the processors announce to the output port when `start` of cpp/SinkSDDS.cpp runs them.
use sink_sdds.Base.{ℕ, ◌%◌, ◌^◌, ◌≡◌, Bool, true, false, none, some, [], ◌∷◌, ◌++◌}
use sink_sdds.Packet.Bytes.{htons}
use sink_sdds.Settings.{NetworkSettings}
use sink_sdds.Processor.Types.{Env, Connection, spawned, StreamDefinition, attach, Processor}
use sink_sdds.Processor.Calls.{data_format}
use sink_sdds.Sockets.{Os, any_match}
use sink_sdds.Component.{Component}
use sink_sdds.Component.Session.{is_multicast, vlan_interface}
use sink_sdds.Component.Session.Opening.{handed}

-- The address of the packets, by whether the address set is multicast and no interface is named.
abbrev pub Reaches : Os → NetworkSettings → Bool → Bool → ℕ → Type 0
Reaches os n true true address = address ≡ 0
Reaches os n true false address = os.inet_aton n.ip_address ≡ some address
Reaches os n false blank address = address ≡ os.inet_addr n.ip_address

abbrev pub IsAddressed : Os → NetworkSettings → ℕ → Type 0
IsAddressed os n =
    Reaches os n (is_multicast os n.ip_address) (any_match (vlan_interface n.interface n.vlan))

abbrev Asked : Os → NetworkSettings → Connection → Type 0
Asked os n c = (c.port ≡ htons (n.port % 2 ^ 16)) × IsAddressed os n c.address

-- A component whose processors have all become what `f` says.
abbrev all_started : (Processor → Processor) → Connection → Component → Component
all_started f k c = record c {
  started = true;
  connection = k;
  floatproc = f c.floatproc;
  shortproc = f c.shortproc;
  octetproc = f c.octetproc;
}

-- What `start` runs.
abbrev connected_to : Component → Connection → Processor → Processor
connected_to c k p = record (handed c p) { connection = k; vlan = c.network_settings.vlan }

-- A processor `p` has become `q` with a thread, after attaching its stream.
abbrev pub Announces : Env → Os → Component → Processor → Processor → Type 0
Announces E os c p q =
    (q.thread ≡ spawned)
    × ((d : StreamDefinition) × (q.calls ≡ p.calls ++ attach none d c.attach_settings.user_id ∷ [])
        × (d.stream_id ≡ p.stream.stream_id)
        × (d.data_format ≡ data_format p.native p.stream.sri.mode)
        × (d.sample_rate ≡ E.floats.div (E.floats.lit 1 0) p.stream.sri.xdelta)
        × (d.time_tag_valid ≡ c.attach_settings.time_tag_valid)
        × (d.port ≡ c.network_settings.port)
        × (d.vlan ≡ c.network_settings.vlan)
        × IsAddressed os c.network_settings d.multicast_address)
