-- ===== src/Examples/DataPlanes.antt =====
-- Runs of pkg/manager/data_plane.go and data_config.go.
use quectel_qmi_go.Common.{◌≡◌, refl, [], ◌∷◌, true, false, none, some, inr, lookup}
use quectel_qmi_go.Connection.{Config, Manager, connected}
use quectel_qmi_go.Connection.Control.Steps.{new_manager}
use quectel_qmi_go.Connection.Reconfigure.{DataConfig, DataManager, ReconfigureWorld}
use quectel_qmi_go.DataPlane.{
  native, qmap, DataPlaneSpec, mux_failed, DataPlane, PlaneWorld, converge_native, create_mux,
  converge_qmap, converge_data_plane_locked, converge_data_plane,
}
use quectel_qmi_go.DataPlane.Convergence.{Converged, Aligned, converge_data_plane-Converged}

-- The interface of the multiplexed topology cannot be made.
abbrev refusing : PlaneWorld
refusing = record {
  services_ok = true;
  native_format_ok = true;
  qmap_format_ok = true;
  topology = some (3, []);
  added_mux = none;
}

abbrev plane : DataPlane
plane = record {
  snapshot = record {
    generation = 4;
    mode = native;
    default_interface = 3;
    default_mux_id = 0;
    degraded = none;
  };
  declared_spec = record { mode = native; default_mux_id = 0 };
  master_interface = none;
  master_iface = none;
  mux_iface = none;
}

abbrev multiplexed : DataPlaneSpec
multiplexed = record { mode = qmap; default_mux_id = 1 }

abbrev online : Manager
online = record (new_manager (5 ∷ [])) {
  state = connected;
  desired_connection = true;
  wds = true;
  handle_v4 = 77;
  connected_generation = 4;
}

fallen_back :
    (converge_data_plane_locked (some 3) refusing multiplexed plane).0
    ≡ inr (record {
      generation = 5;
      mode = native;
      default_interface = 3;
      default_mux_id = 0;
      degraded = some mux_failed;
    })
unfolding converge_data_plane_locked converge_qmap create_mux converge_native lookup
fallen_back = refl

converge_data_plane-Converged_example :
    let (r, m') = converge_data_plane (some 3) refusing multiplexed plane online in
    Converged multiplexed plane.snapshot r × Aligned plane.snapshot (r.0) online m'
converge_data_plane-Converged_example =
    converge_data_plane-Converged (some 3) refusing multiplexed plane online

abbrev config : Config
config = record {
  auto_reconnect = false;
  no_dial = false;
  enable_ipv4 = true;
  enable_ipv6 = false;
  radio_reset_after = 3;
  max_recover_attempts = 0;
  max_recover_elapsed = 0;
  indication_debounce = 5;
  ip_consistency_interval = 0;
  modem_reset_dedup_window = 10;
}

-- The modem refuses the call with the new APN.
abbrev refused : ReconfigureWorld
refused = record {
  done_before = false;
  done_disconnected = false;
  done_before_dial = false;
  done_after_dial = false;
  dial = record {
    allocated_v4 = false;
    allocated_v6 = false;
    topology_ok = true;
    generation = 4;
    needs_binding = false;
    binding_ok = false;
    dial_v4 = none;
    dial_v6 = none;
    runtime_v4 = none;
  };
}

abbrev with_apn : DataManager
with_apn = record { cfg = config; apn = 1; manager = online; reconfiguring_data = false }

abbrev new_apn : DataConfig
new_apn = record { apn = 2; enable_ipv4 = true; enable_ipv6 = false }
