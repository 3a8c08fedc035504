-- ===== src/Ca/Resource/Registry.antt =====
-- src/ca/resource/mod.rs: the registry, which fills the interface that the session layer takes.
use libdvb.Prelude.{ℕ, List, [], ◌==◌, if◌then◌else◌, Result, ok}
use libdvb.Ca.ResourceId.{
  ResourceId, base, resource_manager, application_information, conditional_access_support,
  host_control, date_time, mmi,
}
use libdvb.Ca.Transport.{CiTransport}
use libdvb.Ca.Session.{Called, Resources, host_profile}
use libdvb.Ca.Resource.Context.{ResourceEvent, finish}
use libdvb.Ca.Resource.Rm.{ResourceManager}
use libdvb.Ca.Resource.Rm
use libdvb.Ca.Resource.ApplicationInfo.{ApplicationInfoResource}
use libdvb.Ca.Resource.ApplicationInfo
use libdvb.Ca.ConditionalAccess.{ConditionalAccessResource}
use libdvb.Ca.ConditionalAccess
use libdvb.Ca.ConditionalAccess.Objects
use libdvb.Ca.Resource.HostControl
use libdvb.Ca.Resource.DateTime.{DateTimeResource}
use libdvb.Ca.Resource.DateTime
use libdvb.Ca.Resource.Mmi.{MmiResource}
use libdvb.Ca.Resource.Mmi

-- Host control has no state.
pub record ResourceRegistry : Type 0 where
  pub rm : ResourceManager
  pub app_info : ApplicationInfoResource
  pub ca_support : ConditionalAccessResource
  pub clock_resource : DateTimeResource
  pub dialogues : MmiResource

unfoldable pub new : (clock : ℕ → ℕ) → ResourceRegistry
new clock = record {
  rm = Rm.new host_profile;
  app_info = ApplicationInfo.new;
  ca_support = ConditionalAccess.new;
  clock_resource = DateTime.new clock;
  dialogues = [];
}

-- A callback of one resource, in the registry.
abbrev pub within :
    {X : Type 0}
    → (X → ResourceRegistry)
    → Called X ResourceEvent
    → Called ResourceRegistry ResourceEvent
within put c = record {
  registry = put c.registry;
  transport = c.transport;
  events = c.events;
  close_session = c.close_session;
  result = c.result;
}

abbrev pub put_rm : ResourceRegistry → ResourceManager → ResourceRegistry
put_rm g x = record g { rm = x }

abbrev pub put_app_info : ResourceRegistry → ApplicationInfoResource → ResourceRegistry
put_app_info g x = record g { app_info = x }

abbrev pub put_ca_support : ResourceRegistry → ConditionalAccessResource → ResourceRegistry
put_ca_support g x = record g { ca_support = x }

abbrev pub put_clock : ResourceRegistry → DateTimeResource → ResourceRegistry
put_clock g x = record g { clock_resource = x }

abbrev pub put_dialogues : ResourceRegistry → MmiResource → ResourceRegistry
put_dialogues g x = record g { dialogues = x }

-- The resource that serves an identifier; the trait's own `on_open` and `on_close` do nothing.
pub on_open :
    ResourceId → ℕ → ℕ → ResourceRegistry → CiTransport → Called ResourceRegistry ResourceEvent
on_open id slot_id session_id g t =
    if base id == base resource_manager
    then within (put_rm g) (Rm.on_open slot_id session_id g.rm t)
    else if base id == base application_information
    then within (put_app_info g) (ApplicationInfo.on_open slot_id session_id g.app_info t)
    else if base id == base conditional_access_support
    then within (put_ca_support g) (Objects.on_open slot_id session_id g.ca_support t)
    else if base id == base date_time
    then within (put_clock g) (DateTime.on_open slot_id session_id g.clock_resource t)
    else finish g t (ok tt)

pub on_apdu :
    ResourceId
    → ℕ
    → ℕ
    → ℕ
    → List ℕ
    → ResourceRegistry
    → CiTransport
    → Called ResourceRegistry ResourceEvent
on_apdu id slot_id session_id tag body g t =
    if base id == base resource_manager
    then within (put_rm g) (Rm.on_apdu slot_id session_id tag body g.rm t)
    else if base id == base application_information
    then within (put_app_info g) (ApplicationInfo.on_apdu slot_id session_id tag body g.app_info t)
    else if base id == base conditional_access_support
    then within (put_ca_support g) (Objects.on_apdu slot_id session_id tag body g.ca_support t)
    else if base id == base host_control
    then within (λ x. g) (HostControl.on_apdu slot_id session_id tag body tt t)
    else if base id == base date_time
    then within (put_clock g) (DateTime.on_apdu slot_id session_id tag body g.clock_resource t)
    else if base id == base mmi
    then within (put_dialogues g) (Mmi.on_apdu slot_id session_id tag body g.dialogues t)
    else finish g t (ok tt)

pub on_close : ResourceId → ℕ → ℕ → ResourceRegistry → ResourceRegistry
on_close id slot_id session_id g =
    if base id == base application_information
    then put_app_info g (ApplicationInfo.on_close session_id g.app_info)
    else if base id == base conditional_access_support
    then put_ca_support g (Objects.on_close session_id g.ca_support)
    else if base id == base date_time
    then put_clock g (DateTime.on_close session_id g.clock_resource)
    else if base id == base mmi
    then put_dialogues g (Mmi.on_close session_id g.dialogues)
    else g

abbrev pub registry_calls : Resources ResourceRegistry ResourceEvent
registry_calls = record { on_open = on_open; on_apdu = on_apdu; on_close = on_close }

abbrev pub ticked_registry :
    ResourceRegistry
    → DateTimeResource × CiTransport × Result (Unit {0})
    → ResourceRegistry × CiTransport × Result (Unit {0})
ticked_registry g (d, t, r) = (put_clock g d, t, r)

-- `tick`: the other resources have the trait's own `on_tick`, which does nothing.
unfoldable pub tick :
    (now : ℕ) → ResourceRegistry → CiTransport → ResourceRegistry × CiTransport × Result (Unit {0})
tick now g t = ticked_registry g (DateTime.on_tick now g.clock_resource t)
