-- ===== src/Component/Session/Descriptors/Attempt.antt =====
-- What a call of `start` in cpp/SinkSDDS.cpp leaves of the connection, and what it leaves open.
use sink_sdds.Base.{◌≡◌, inl, inr, refl, ap, Bool, true, false, List, Bool-cases, if_both}
use sink_sdds.Settings.{NetworkSettings}
use sink_sdds.Processor.Types.{Env, Read}
use sink_sdds.Sockets.{Os, Opened}
use sink_sdds.Sockets.Resources.{Resources, left}
use sink_sdds.Sockets.Resources.Left.{servers-left, Ended, servers-Ended}
use sink_sdds.Component.{Component}
use sink_sdds.Component.Session.{is_multicast, vlan_interface, open_server, start}
use sink_sdds.Component.Session.Opening.{attempt, reached, finish, start-finish}
use sink_sdds.Component.Session.Descriptors.{open_server_in}

pub open_server_in-left :
    (os : Os) (n : NetworkSettings) (r : Resources)
    → (open_server_in os n r).1 ≡ left os (open_server os n) r
unfolding open_server open_server_in
open_server_in-left os n r =
    let iface = vlan_interface n.interface n.vlan in
    let (m, u) = servers-left os iface n.ip_address n.port r in
    let Second : Opened × Resources → Resources = λ x. x.1 in
    elim (Bool-cases (is_multicast os n.ip_address)) [
      | inl multi ↦ rw multi (ap Second m)
      | inr uni ↦ rw uni (ap Second u)
    ]

pub open_server-Ended : (os : Os) (n : NetworkSettings) → Ended os (open_server os n)
unfolding open_server
open_server-Ended os n =
    let (m, u) = servers-Ended os (vlan_interface n.interface n.vlan) n.ip_address n.port in
    if_both (Ended os) (is_multicast os n.ip_address) _ _ m u

pub start-attempt :
    (E : Env) (os : Os) (rs : List Read) (c : Component)
    → c.started ≡ false
    → ((start E os rs c).0.connection ≡ (attempt os c.network_settings).0)
      × ((start E os rs c).0.started ≡ (attempt os c.network_settings).1)
start-attempt E os rs c idle =
    rw (start-finish E os rs c idle) (finished (attempt os c.network_settings).1)
  where
    finished :
        (b : Bool)
        → ((finish E rs (reached os c) b).0.connection ≡ (attempt os c.network_settings).0)
          × ((finish E rs (reached os c) b).0.started ≡ b)
    finished true = (refl, refl)
    finished false = (refl, idle)
