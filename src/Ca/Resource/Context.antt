-- ===== src/Ca/Resource/Context.antt =====
-- src/ca/resource/mod.rs: what the callbacks of a resource do with their `ResourceContext`, and the
-- events of src/ca/session.rs that they report. `X` is the state of the resource.
use libdvb.Prelude.{ℕ, Bool, false, List, [], ◌∷◌, Option, Result, ok, err, panic, invalid_data}
use libdvb.Ca.Transport.{CiTransport, send_apdu}
use libdvb.Ca.Session.{Called}

-- src/ca/resource/application_info.rs
pub record ApplicationInfo : Type 0 where
  pub application_type : ℕ
  pub application_manufacturer : ℕ
  pub manufacturer_code : ℕ
  pub menu_string : List ℕ

-- src/ca/resource/mmi.rs
pub record MmiMenu : Type 0 where
  pub title : List ℕ
  pub sub_title : List ℕ
  pub bottom : List ℕ
  pub items : List (List ℕ)

-- The events of `CaEvent` that resources report.
pub data ResourceEvent : Type 0 where
  application_info : (slot_id : ℕ) (info : ApplicationInfo) → ResourceEvent
  ca_info : (slot_id session_id : ℕ) (caids : List ℕ) → ResourceEvent
  mmi_close : (slot_id session_id : ℕ) (delay : Option ℕ) → ResourceEvent
  mmi_text : (slot_id session_id : ℕ) (text : List ℕ) → ResourceEvent
  mmi_menu : (slot_id session_id : ℕ) (menu : MmiMenu) → ResourceEvent
  mmi_list : (slot_id session_id : ℕ) (menu : MmiMenu) → ResourceEvent
  mmi_enq : (slot_id session_id : ℕ) (blind : Bool) (answer_len : ℕ) (text : List ℕ) → ResourceEvent
  tune : (slot_id network_id original_network_id transport_stream_id service_id : ℕ) → ResourceEvent
  replace : (slot_id replace_ref replaced_pid replacement_pid : ℕ) → ResourceEvent
  clear_replace : (slot_id replace_ref : ℕ) → ResourceEvent

module _ {X : Type 0} where
  -- A callback that ends with a call of `self.transport`.
  abbrev pub sent : X → CiTransport × Result (Unit {0}) → Called X ResourceEvent
  sent x (t, r) = record {
    registry = x;
    transport = t;
    events = [];
    close_session = false;
    result = r;
  }

  -- `ctx.send_apdu(tag, body)`
  abbrev pub reply :
      X → CiTransport → (slot_id session_id tag : ℕ) → List ℕ → Called X ResourceEvent
  reply x t slot_id session_id tag body = sent x (send_apdu slot_id session_id tag body t)

  -- `ctx.event(event); Ok(())`
  abbrev pub event : X → CiTransport → ResourceEvent → Called X ResourceEvent
  event x t e = record {
    registry = x;
    transport = t;
    events = e ∷ [];
    close_session = false;
    result = ok tt;
  }

  -- `Ok(())` or an error, and nothing else.
  abbrev pub finish : X → CiTransport → Result (Unit {0}) → Called X ResourceEvent
  finish x t r = sent x (t, r)

  -- `Err(Error::InvalidData(..))`
  abbrev pub refuse : X → CiTransport → Called X ResourceEvent
  refuse x t = finish x t (err invalid_data)

  -- An event made of what may fail before it is reported.
  abbrev pub event_of : X → CiTransport → Result ResourceEvent → Called X ResourceEvent
  event_of x t (ok e) = event x t e
  event_of x t (err why) = finish x t (err why)
  event_of x t panic = finish x t panic
