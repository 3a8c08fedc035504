-- ===== src/Ca/Host.antt =====
-- src/ca/session.rs: the methods of the session layer that go to one resource.
use libdvb.Prelude.{
  ℕ, suc, ◌+◌, Bool, true, false, ◌&&◌, ◌||◌, List, [], ◌∷◌, ◌++◌, Option, none, some,
  if◌then◌else◌, u16, Result, ok,
}
use libdvb.Ca.Apdu.Tags.{enter_menu_tag, menu_answ_tag, answ_tag, close_mmi_tag, ask_release_tag}
use libdvb.Ca.ResourceId.{application_information, conditional_access_support, host_control, mmi}
use libdvb.Ca.Capmt.{Program}
use libdvb.Ca.Transport.{CiTransport, send_apdu}
use libdvb.Ca.Session.{
  Session, CiSession, S, ◌>>=◌, ◌>>◌, done, on_transport, session_at, serves, require_session,
  find_session,
}
use libdvb.Ca.Resource.Table.{sort, dedup}
use libdvb.Ca.Resource.Context.{ResourceEvent, ApplicationInfo}
use libdvb.Ca.Resource.ApplicationInfo.{info_of, info_session}
use libdvb.Ca.ConditionalAccess
use libdvb.Ca.ConditionalAccess.{ConditionalAccessResource, Outcome}
use libdvb.Ca.Resource.Mmi.{build_answ, build_close}
use libdvb.Ca.Resource.Registry
use libdvb.Ca.Resource.Registry.{ResourceRegistry, put_ca_support}

abbrev pub HostSession : Type 0
HostSession = CiSession ResourceRegistry ResourceEvent

abbrev pub H : Type 0 → Type 0
H A = S ResourceRegistry ResourceEvent A

abbrev pub put_ticked :
    HostSession
    → ResourceRegistry × CiTransport × Result (Unit {0})
    → HostSession × Result (Unit {0})
put_ticked s (g, t, r) = (record s { resources = g; transport = t }, r)

pub tick_at : (now : ℕ) → H (Unit {0})
tick_at now s = put_ticked s (Registry.tick now s.resources s.transport)

pub app_info : HostSession → ℕ → Option ApplicationInfo
app_info s slot_id = info_of slot_id s.resources.app_info

-- What one entry adds to the union.
abbrev pub caids_of : ConditionalAccessResource → ℕ → ℕ → Option Session → List ℕ
caids_of c slot_id session_id o =
    if serves slot_id conditional_access_support o
    then elim (ConditionalAccess.session_caids slot_id session_id c) [
      | none ↦ []
      | some session_caids ↦ session_caids
    ]
    else []

-- The loop of `caids`, from an index on.
caids_from : ConditionalAccessResource → ℕ → ℕ → List (Option Session) → List ℕ
caids_from c slot_id index [] = []
caids_from c slot_id index (o ∷ rest) =
    caids_of c slot_id (u16 (index + 1)) o ++ caids_from c slot_id (suc index) rest

pub caids : HostSession → ℕ → List ℕ
unfolding caids_from
caids s slot_id = dedup (sort (caids_from s.resources.ca_support slot_id 0 s.sessions))

pub session_caids : HostSession → ℕ → ℕ → Option (List ℕ)
session_caids s slot_id session_id =
    if serves slot_id conditional_access_support (session_at s.sessions session_id)
    then ConditionalAccess.session_caids slot_id session_id s.resources.ca_support
    else none

abbrev pub is_confirmed : Option (List ℕ) → Bool
is_confirmed none = false
is_confirmed (some caids) = true

confirmed_from : ConditionalAccessResource → ℕ → ℕ → List (Option Session) → Bool
confirmed_from c slot_id index [] = false
confirmed_from c slot_id index (o ∷ rest) =
    serves slot_id conditional_access_support o
      && is_confirmed (ConditionalAccess.session_caids slot_id (u16 (index + 1)) c)
    || confirmed_from c slot_id (suc index) rest

pub has_ca_info : HostSession → ℕ → Bool
unfolding confirmed_from
has_ca_info s slot_id = confirmed_from s.resources.ca_support slot_id 0 s.sessions

abbrev pub put_programs : HostSession → Outcome → HostSession × Result (List ℕ)
put_programs s (c, t, r) = (record s { resources = put_ca_support s.resources c; transport = t }, r)

pub set_program : Program → H (List ℕ)
set_program program s =
    put_programs s (ConditionalAccess.set_program program s.resources.ca_support s.transport)

pub remove_program : ℕ → H (List ℕ)
remove_program number s =
    put_programs s (ConditionalAccess.remove_program number s.resources.ca_support s.transport)

-- `.filter(..)` on the session that told the last information.
abbrev pub if_serves : List (Option Session) → ℕ → Option (ℕ × ApplicationInfo) → Option ℕ
if_serves sessions slot_id none = none
if_serves sessions slot_id (some (session_id, info)) =
    if serves slot_id application_information (session_at sessions session_id)
    then some session_id
    else none

menu_session : List (Option Session) → ℕ → Option ℕ → Result ℕ
menu_session sessions slot_id (some session_id) = ok session_id
menu_session sessions slot_id none = find_session sessions slot_id application_information

-- `menu_session` is the `match` on `confirmed_session`.
pub enter_menu : ℕ → H (Unit {0})
unfolding menu_session
enter_menu slot_id s =
    (do
      session_id ← done (
          menu_session s.sessions slot_id
            (if_serves s.sessions slot_id (info_session slot_id s.resources.app_info)))
      on_transport (send_apdu slot_id session_id enter_menu_tag []))
      s

-- An object for one exact session.
to_dialogue : ℕ → ℕ → ℕ → List ℕ → H (Unit {0})
to_dialogue slot_id session_id tag body s =
    (do
      done (require_session s.sessions slot_id session_id mmi)
      on_transport (send_apdu slot_id session_id tag body))
      s

pub mmi_menu_answer : ℕ → ℕ → ℕ → H (Unit {0})
unfolding to_dialogue
mmi_menu_answer slot_id session_id choice =
    to_dialogue slot_id session_id menu_answ_tag (choice ∷ [])

pub mmi_list_close : ℕ → ℕ → H (Unit {0})
mmi_list_close slot_id session_id = mmi_menu_answer slot_id session_id 0

pub mmi_answer : ℕ → ℕ → Option (List ℕ) → H (Unit {0})
unfolding to_dialogue
mmi_answer slot_id session_id answer = to_dialogue slot_id session_id answ_tag (build_answ answer)

pub mmi_close : ℕ → ℕ → H (Unit {0})
unfolding to_dialogue
mmi_close slot_id session_id = to_dialogue slot_id session_id close_mmi_tag build_close

pub ask_release : ℕ → H (Unit {0})
ask_release slot_id s =
    (do
      session_id ← done (find_session s.sessions slot_id host_control)
      on_transport (send_apdu slot_id session_id ask_release_tag []))
      s
