-- ===== src/Recovery/Retry/Instances.antt =====
-- pkg/manager/uim_recovery.go, service_recovery.go, service_recovery_storm.go: the functions of each
-- service, which differ in the service and in the tests on it.
use quectel_qmi_go.Common.{ℕ, Bool, Option}
use quectel_qmi_go.Recovery.Errors.{OpError}
use quectel_qmi_go.Recovery.Services.{
  Service, uim, dms, nas, wms, voice, ims, imsa, Handle, Bindings, AllocWorld, Bound,
  ensure_service, rebind_service,
}
use quectel_qmi_go.Recovery.Retry.{
  ServiceManager, ServiceConfig, RetryWorld, Recovered, with_recovery,
}

module _ (has : ℕ → Service → Bool) (w : AllocWorld) where
  abbrev pub ensure_uim_service : Bindings → Bound
  ensure_uim_service b = ensure_service has w uim b

  abbrev pub rebind_uim_service : Bindings → Bound
  rebind_uim_service b = rebind_service has w uim b

  abbrev pub ensure_dms_service : Bindings → Bound
  ensure_dms_service b = ensure_service has w dms b

  abbrev pub rebind_dms_service : Bindings → Bound
  rebind_dms_service b = rebind_service has w dms b

  abbrev pub ensure_nas_service : Bindings → Bound
  ensure_nas_service b = ensure_service has w nas b

  abbrev pub rebind_nas_service : Bindings → Bound
  rebind_nas_service b = rebind_service has w nas b

  abbrev pub ensure_wms_service : Bindings → Bound
  ensure_wms_service b = ensure_service has w wms b

  abbrev pub rebind_wms_service : Bindings → Bound
  rebind_wms_service b = rebind_service has w wms b

  abbrev pub ensure_voice_service : Bindings → Bound
  ensure_voice_service b = ensure_service has w voice b

  abbrev pub rebind_voice_service : Bindings → Bound
  rebind_voice_service b = rebind_service has w voice b

  abbrev pub ensure_ims_service : Bindings → Bound
  ensure_ims_service b = ensure_service has w ims b

  abbrev pub rebind_ims_service : Bindings → Bound
  rebind_ims_service b = rebind_service has w ims b

  abbrev pub ensure_imsa_service : Bindings → Bound
  ensure_imsa_service b = ensure_service has w imsa b

  abbrev pub rebind_imsa_service : Bindings → Bound
  rebind_imsa_service b = rebind_service has w imsa b

module _ {ℓ} {A : Type ℓ} (zero : A) (has : ℕ → Service → Bool) (cfg : ServiceConfig) (op : ℕ)
    (fn : ℕ → Handle → A × Option OpError) where
  abbrev pub with_uim_recovery_value :
      RetryWorld → ServiceManager → Recovered zero has cfg uim op fn
  with_uim_recovery_value w m = with_recovery zero has cfg uim op fn w m

  abbrev pub with_dms_recovery_value :
      RetryWorld → ServiceManager → Recovered zero has cfg dms op fn
  with_dms_recovery_value w m = with_recovery zero has cfg dms op fn w m

  abbrev pub with_nas_recovery_value :
      RetryWorld → ServiceManager → Recovered zero has cfg nas op fn
  with_nas_recovery_value w m = with_recovery zero has cfg nas op fn w m

  abbrev pub with_wms_recovery_value :
      RetryWorld → ServiceManager → Recovered zero has cfg wms op fn
  with_wms_recovery_value w m = with_recovery zero has cfg wms op fn w m

  abbrev pub with_voice_recovery_value :
      RetryWorld → ServiceManager → Recovered zero has cfg voice op fn
  with_voice_recovery_value w m = with_recovery zero has cfg voice op fn w m

  abbrev pub with_ims_recovery_value :
      RetryWorld → ServiceManager → Recovered zero has cfg ims op fn
  with_ims_recovery_value w m = with_recovery zero has cfg ims op fn w m

  abbrev pub with_imsa_recovery_value :
      RetryWorld → ServiceManager → Recovered zero has cfg imsa op fn
  with_imsa_recovery_value w m = with_recovery zero has cfg imsa op fn w m
