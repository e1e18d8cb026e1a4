-- ===== src/Connection/Reconfigure.antt =====
-- pkg/manager/data_config.go, ReconfigureDataConfig: a new APN and new IP families for a manager that
-- may hold a connection. Another goroutine does not run in between, so that the second test for a
-- manager that stops, behind the disconnection, never holds.
pub mod Rollback
use quectel_qmi_go.Common.{
  ℕ, Bool, true, false, not, ◌&&◌, ◌||◌, if◌then◌else◌, ◌==◌, Option, none, some,
}
use quectel_qmi_go.Connection.{is_stopping, is_connected, is_connecting, Config, Manager}
use quectel_qmi_go.Connection.Dial.{DialError, DialWorld, do_connect, do_disconnect}

-- The APN is a number, already trimmed.
pub record DataConfig : Type 0 where
  pub apn : ℕ
  pub enable_ipv4 : Bool
  pub enable_ipv6 : Bool

-- The configuration of the manager, its APN and its state.
pub record DataManager : Type 0 where
  pub cfg : Config
  pub apn : ℕ
  pub manager : Manager
  pub reconfiguring_data : Bool

pub data ReconfigureError : Type 0 where
  invalid_data_config manager_stopping context_done : ReconfigureError
  redial_failed : DialError → ReconfigureError

-- Whether ctx is done at each of its tests, and the answers to the dial.
pub record ReconfigureWorld : Type 0 where
  pub done_before : Bool
  pub done_disconnected : Bool
  pub done_before_dial : Bool
  pub done_after_dial : Bool
  pub dial : DialWorld

abbrev pub same_bool : Bool → Bool → Bool
same_bool true b = b
same_bool false b = not b

abbrev pub config_of : DataManager → DataConfig
config_of d = record {
  apn = d.apn;
  enable_ipv4 = d.cfg.enable_ipv4;
  enable_ipv6 = d.cfg.enable_ipv6;
}

abbrev pub is_same : DataConfig → DataConfig → Bool
is_same a b =
    a.apn == b.apn
    && (same_bool a.enable_ipv4 b.enable_ipv4 && same_bool a.enable_ipv6 b.enable_ipv6)

abbrev pub is_active : Manager → Bool
is_active m =
    (is_connected m.state || is_connecting m.state)
    || (not (m.handle_v4 == 0) || not (m.handle_v6 == 0))

abbrev pub set_config : DataConfig → DataManager → DataManager
set_config c d = record d {
  cfg = record (d.cfg) { enable_ipv4 = c.enable_ipv4; enable_ipv6 = c.enable_ipv6 };
  apn = c.apn;
}

abbrev pub set_desired : Bool → DataManager → DataManager
set_desired desired d = record d { manager = record (d.manager) { desired_connection = desired } }

-- restorePrevious
unfoldable pub restore_previous : DataConfig → Bool → DataManager → DataManager
restore_previous old desired d = set_desired desired (set_config old d)

unfoldable pub cleanup_after_failed_redial : DataConfig → Bool → DataManager → DataManager
unfolding restore_previous
cleanup_after_failed_redial old desired d =
    restore_previous old desired (record d { manager = do_disconnect d.manager })

abbrev pub Reconfigured : Type 0
Reconfigured = Option ReconfigureError × DataManager

-- Behind the dial.
unfoldable pub redialled :
    ReconfigureWorld → DataConfig → Bool → Option DialError → DataManager → Reconfigured
redialled w old desired err d = elim err [
  | some e ↦ (some (redial_failed e), cleanup_after_failed_redial old desired d)
  | none ↦
      if w.done_after_dial
      then (some context_done, cleanup_after_failed_redial old desired d)
      else (none, d)
]

-- Behind the change of the fields.
unfoldable pub apply_changed :
    ReconfigureWorld → DataConfig → Bool → Bool → DataManager → Reconfigured
apply_changed w old active desired d =
    if active && desired
    then if w.done_before_dial
      then (some context_done, restore_previous old desired d)
      else (let (err, m) = do_connect d.cfg w.dial (set_desired true d).manager in
          redialled w old desired err (record d { manager = m }))
    else if w.done_before_dial
    then (some context_done, restore_previous old desired d)
    else (none, d)

-- Behind the disconnection.
unfoldable pub change :
    ReconfigureWorld → DataConfig → Bool → DataConfig → Bool → DataManager → Reconfigured
change w new active old desired d =
    if w.done_disconnected
    then (some context_done, set_desired desired d)
    else apply_changed w old active desired (set_config new d)

abbrev pub begin_reconfiguring : Bool → DataManager → DataManager
begin_reconfiguring active d =
    if active
    then record d {
      manager = do_disconnect (record (d.manager) { desired_connection = false });
      reconfiguring_data = true;
    }
    else record d { reconfiguring_data = true }

abbrev pub finish : Reconfigured → Reconfigured
finish r = (r.0, record (r.1) { reconfiguring_data = false })

unfoldable pub reconfigure_data_config : ReconfigureWorld → DataConfig → DataManager → Reconfigured
reconfigure_data_config w new d =
    if not new.enable_ipv4 && not new.enable_ipv6
    then (some invalid_data_config, d)
    else if is_stopping d.manager.state
    then (some manager_stopping, d)
    else if is_same (config_of d) new
    then (none, d)
    else if is_active d.manager && w.done_before
    then (some context_done, d)
    else (let active = is_active d.manager in
        finish (
          change w new active (config_of d) d.manager.desired_connection
            (begin_reconfiguring active d)))
