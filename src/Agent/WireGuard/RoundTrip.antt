-- ===== src/Agent/WireGuard/RoundTrip.antt =====
-- Rendering and parsing in services/vpn-agent/src/nebula_agent/drivers/config_store.py.
use vpn.Prelude.{
  ℕ, ◌≡◌, ◌∙◌, ap, sym, refl, Option, none, some, inl, inr, Option-cases, List, [], ◌∷◌, ◌++◌,
}
use vpn.Agent.WireGuard.{
  RenderedPeer, DesiredInterfaceState, WireGuardInterfaceIdentity, peer_lines,
  render_wireguard_config, Parser, flushed_peers, flush, parse_lines, no_peers,
  parse_wireguard_config,
}

append_assoc : (xs ys zs : List RenderedPeer) → (xs ++ ys) ++ zs ≡ xs ++ (ys ++ zs)
append_assoc [] ys zs = refl
append_assoc (x ∷ xs) ys zs = ap (λ l. x ∷ l) (append_assoc xs ys zs)

append_none : (xs : List RenderedPeer) → xs ++ [] ≡ xs
append_none [] = refl
append_none (x ∷ xs) = ap (λ l. x ∷ l) (append_none xs)

parse-peer_lines :
    (desired : DesiredInterfaceState) (st : Parser)
    → (flush (parse_lines (peer_lines desired) st)).peers ≡ (flush st).peers ++ desired
parse-peer_lines [] st = sym (append_none (flush st).peers)
parse-peer_lines (p ∷ peers) st =
    let before = flushed_peers st.public_key st.address st in
    let parsed = λ (keepalive : Option ℕ).
      parse-peer_lines peers (record {
        peers = before;
        public_key = some p.public_key;
        address = some p.assigned_address;
        keepalive = keepalive;
        generation = p.generation;
      })
      ∙ append_assoc before (record p { persistent_keepalive_seconds = keepalive } ∷ []) peers in
    elim (Option-cases p.persistent_keepalive_seconds) [
      | inl e ↦ rw e (parsed none)
      | inr (seconds, e) ↦ rw e (parsed (some seconds))
    ]

-- The peers that are parsed from the lines of a rendered configuration, with or without the interface's
-- block, are the peers that were rendered, in their order and with every field.
pub parse-render_wireguard_config :
    (desired : DesiredInterfaceState) (interface : Option WireGuardInterfaceIdentity)
    → parse_wireguard_config (render_wireguard_config desired interface) ≡ desired
unfolding parse_wireguard_config render_wireguard_config
parse-render_wireguard_config desired none = parse-peer_lines desired no_peers
parse-render_wireguard_config desired (some identity) = parse-peer_lines desired no_peers
