-- ===== src/Examples/Recoveries.antt =====
-- Runs of pkg/manager/service_recovery.go.
use quectel_qmi_go.Common.{
  ℕ, ◌≡◌, ap, refl, inr, [], ◌∷◌, Bool, true, false, Option, none, some, arith,
}
use mathlib.Core.Path.{subst}
use quectel_qmi_go.Connection.{Config}
use quectel_qmi_go.Connection.Resets.Kept.{is_tracked}
use quectel_qmi_go.Connection.Control.Steps.{new_manager}
use quectel_qmi_go.Recovery.Errors.{OpError, should_recover_service_error}
use quectel_qmi_go.Recovery.Timeouts.{RecoveryPolicy, note_service_operation_success}
use quectel_qmi_go.Recovery.Timeouts.Counting.{Other, row, threshold_counted}
use quectel_qmi_go.Recovery.Services.{ensure_service, Service, uim, Handle, AllocWorld}
use quectel_qmi_go.Recovery.Retry.{ServiceManager, ServiceConfig, RetryWorld, with_recovery}
use quectel_qmi_go.Recovery.Retry.Calls.{Ensured, with_recovery-Called}
use quectel_qmi_go.Recovery.Retry.Escalation.{stalled_service-Tracked}

abbrev policy : RecoveryPolicy
policy = record {
  disable_service_timeout_recovery = false;
  service_timeout_threshold = 2;
  service_timeout_window = 100;
}

-- The third timeout is another operation's.
threshold_counted_example :
    (row policy
      (11, 1)
      (([], 10) ∷ ([], 20) ∷ (Other.another_timed_out 25 (11, 2) ∷ [], 30) ∷ [])
      (note_service_operation_success (11, 1) [])).0
    ≡ false ∷ true ∷ true ∷ []
threshold_counted_example =
    threshold_counted policy (11, 1) [] 10
      (([], 20) ∷ (Other.another_timed_out 25 (11, 2) ∷ [], 30) ∷ []) (ground arith)
      ((tt, ground arith), ((((λ e. absurd (ground (arith, e))), tt), ground arith), tt))

abbrev connection_config : Config
connection_config = record {
  auto_reconnect = true;
  no_dial = false;
  enable_ipv4 = true;
  enable_ipv6 = false;
  radio_reset_after = 3;
  max_recover_attempts = 0;
  max_recover_elapsed = 0;
  indication_debounce = 5;
  ip_consistency_interval = 0;
  modem_reset_dedup_window = 10;
}

abbrev config : ServiceConfig
config = record { policy = policy; cooldown = 0; connection = connection_config }

abbrev card : Handle
card = record { id = 4; client = 1 }

abbrev manager : ServiceManager
manager = record {
  bindings = record {
    client = some 1;
    bound = λ s. some card;
    allocated = [];
    closed = [];
    replayed = [];
  };
  failures = [];
  storm = record { timeout_services = []; storm_at = 0; resets = 0 };
  last_recover_signal = 0;
  connection = record (new_manager (5 ∷ [])) { core_ready = true; client = true };
  attempts = [];
}

abbrev allocating : AllocWorld
allocating = record { before_lock = λ b. b; during = λ b. b; allocation = inr 9 }

abbrev world : RetryWorld
world = record {
  first_at = 1_000;
  retried_at = 2_000;
  ensuring = allocating;
  rebinding = allocating;
  during_call = λ b. b;
}

abbrev invalid_id : OpError
invalid_id = record {
  not_ready = none;
  qmi_error = some (record { service = 0x0b; message_id = 0x2f; error_code = 0x29 });
  canceled = false;
  deadline_exceeded = false;
  timed_out = false;
  names_unavailable = false;
}

abbrev has_all : ℕ → Service → Bool
has_all c s = true

abbrev always_failing : ℕ → Handle → ℕ × Option OpError
always_failing n h = (n, some invalid_id)

with_recovery-Called_example :
    Ensured 0 has_all config uim 3 always_failing world manager
      (ensure_service has_all world.ensuring uim manager.bindings)
      (with_recovery 0 has_all config uim 3 always_failing world manager)
with_recovery-Called_example =
    with_recovery-Called 0 has_all config uim 3 always_failing world manager

invalid_id_recoverable :
    (e : OpError) → some invalid_id ≡ some e → should_recover_service_error 0x0b e ≡ true
unfolding should_recover_service_error
invalid_id_recoverable e h =
    subst (λ x. should_recover_service_error 0x0b x ≡ true)
      (ap (λ o. elim o [ none ↦ invalid_id | some x ↦ x ]) h) refl

stalled_service-Tracked_example :
    is_tracked (with_recovery 0 has_all config uim 3 always_failing world manager).1.connection
    ≡ true
stalled_service-Tracked_example =
    stalled_service-Tracked 0 has_all config uim 3 always_failing
      (λ n h e. absurd (ground (arith, e))) (λ n h. invalid_id_recoverable) refl world card manager
      refl (refl, (refl, (refl, (refl, refl)))) (refl, (refl, (refl, (refl, refl))))
