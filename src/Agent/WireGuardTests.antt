-- ===== src/Agent/WireGuardTests.antt =====
-- A host with one peer for services/vpn-agent/src/nebula_agent/drivers, and the theorems at it.
use vpn.Prelude.{◌≡◌, refl, true, none, some, [], ◌∷◌}
use vpn.Agent.WireGuard.{
  v4, v6, RenderedPeer, WireGuardInterfaceIdentity, plain, parse_wireguard_config,
  render_wireguard_config, read_last_known_good, rollback_text,
}
use vpn.Agent.WireGuard.Driver.{Ran, failed, succeeded, DeviceState, answered, DriverState}
use vpn.Agent.WireGuard.Refines.{revokes, view, call, call-refines}

abbrev identity : WireGuardInterfaceIdentity
identity = record { private_key = 11; listen_port = 51820 }

abbrev first : RenderedPeer
first = record {
  public_key = 1;
  assigned_address = v4 2;
  persistent_keepalive_seconds = some 25;
  generation = 4;
}

abbrev second : RenderedPeer
second = record {
  public_key = 2;
  assigned_address = v6 3;
  persistent_keepalive_seconds = none;
  generation = 1;
}

abbrev driver : DriverState
driver = record {
  server_public_key = none;
  host = record {
    interface = [];
    last_known_good = some (render_wireguard_config (first ∷ second ∷ []) (some identity));
    candidate = none;
  };
}

abbrev half : Ran
half = failed (plain "[Interface]" ∷ [])

-- The application fails half-way, and the rollback puts the two peers back.
call-refines_example :
    let (answer, d') = call identity (λ a. true) half succeeded (revokes 1 5) driver in
    (answer
      ≡ answered (record { state = DeviceState.failed; applied_generation = 4; error_code = true }))
    × (view d' 1 ≡ some first)
    × (d'.host.interface ≡ rollback_text identity d'.host)
unfolding read_last_known_good parse_wireguard_config render_wireguard_config
call-refines_example = call-refines identity (λ a. true) half succeeded (revokes 1 5) driver 1 refl
