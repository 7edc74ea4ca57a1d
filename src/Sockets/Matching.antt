-- ===== src/Sockets/Matching.antt =====
-- Which device the interface of the settings stands for.
use sink_sdds.Base.{
  ℕ, ◌-◌, ◌≡◌, ◌↔◌, refl, sym, ap, ◌∙◌, true, [], ◌∷◌, ◌++◌, arith, length, length-append, take,
  drop, take-append-drop, Text, same_text, same_text_iff,
}
use sink_sdds.Sockets.{starts_with_dot, any_interface_vlan_match}

drop-prefix :
    (pre iface : Text) → drop (length (pre ++ iface) - length iface) (pre ++ iface) ≡ iface
drop-prefix pre iface =
    let e : length (pre ++ iface) - length iface ≡ length pre =
      omega (arith, length-append {0} pre iface) in
    rw e (go pre)
  where
    go : (xs : Text) → drop (length xs) (xs ++ iface) ≡ iface
    go [] = refl
    go (x ∷ xs) = go xs

-- The VLAN match of an interface with a device name holds exactly if the interface begins with a dot and
-- the name ends in it.
any_interface_vlan_match_iff :
    (iface name : Text)
    → (any_interface_vlan_match iface name ≡ true)
      ↔ ((starts_with_dot iface ≡ true) × ((pre : Text) × (name ≡ pre ++ iface)))
unfolding any_interface_vlan_match
any_interface_vlan_match_iff iface name = (there, back)
  where
    k : ℕ
    k = length name - length iface

    there :
        any_interface_vlan_match iface name ≡ true
        → (starts_with_dot iface ≡ true) × ((pre : Text) × (name ≡ pre ++ iface))
    there h =
        let same : same_text (drop k name) iface ≡ true = ground arith in
        (
          ground arith,
          (
            take k name,
            sym (take-append-drop k name)
                ∙ ap (λ (t : Text). take k name ++ t) ((same_text_iff (drop k name) iface).0 same),
          ),
        )

    back :
        (starts_with_dot iface ≡ true) × ((pre : Text) × (name ≡ pre ++ iface))
        → any_interface_vlan_match iface name ≡ true
    back (dot, (pre, e)) =
        rw (e, dot)
          (ground (
            arith,
            length-append pre iface,
            (same_text_iff (drop (length (pre ++ iface) - length iface) (pre ++ iface)) iface).1
                (drop-prefix pre iface),
          ))
