-- ===== src/Connection/Reconfigure/Rollback.antt =====
-- pkg/manager/data_config.go, ReconfigureDataConfig: what a failure leaves.
use quectel_qmi_go.Common.{◌≡◌, Bool, Option, none, some}
use quectel_qmi_go.Connection.{Config, Manager}
use quectel_qmi_go.Connection.Dial.{DialError, DialWorld}
use quectel_qmi_go.Connection.Reconfigure.{DataConfig, DataManager, Reconfigured}

-- Whether a connection is wanted is not for a dial to change.
module _ (cfg : Config) (w : DialWorld) (wanted : Bool) where
  abbrev Wants : Option DialError × Manager → Type 0
  Wants r = r.1.desired_connection ≡ wanted

abbrev pub HasConfig : DataConfig → DataManager → Type 0
HasConfig c d =
    (d.apn ≡ c.apn) × ((d.cfg.enable_ipv4 ≡ c.enable_ipv4) × (d.cfg.enable_ipv6 ≡ c.enable_ipv6))

-- Without an error the configuration is the new one, with an error it is that of before; whether a
-- connection is wanted is as before.
abbrev pub Reconfigures : DataConfig → DataConfig → Bool → Reconfigured → Type 0
Reconfigures new old wanted (none, d) = HasConfig new d × (d.manager.desired_connection ≡ wanted)
Reconfigures new old wanted (some e, d) = HasConfig old d × (d.manager.desired_connection ≡ wanted)
