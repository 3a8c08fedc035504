-- ===== src/Ca/Session/State.antt =====
-- src/ca/session.rs: the state of the session layer, and calls that may fail. The resources are
-- behind the trait `Resource` of src/ca/resource/mod.rs, here an interface: `R` is the state of the
-- registry and `E` what its callbacks report, beside the events of the session layer itself.
use libdvb.Prelude.{ℕ, Bool, List, [], ◌∷◌, ◌++◌, Option, Result, ok, err, panic}
use libdvb.Ca.ResourceId.{ResourceId}
use libdvb.Ca.Transport.{CiTransport, M}

pub data SessionState : Type 0 where
  active closing : SessionState

pub record Session : Type 0 where
  pub slot_id : ℕ
  pub resource_id : ResourceId
  pub state : SessionState

-- The events of this layer; those of resources are `reported`.
pub data CaEvent (E : Type 0) : Type 0 where
  transport_ready : (slot_id : ℕ) → CaEvent E
  malformed_data : (slot_id : ℕ) → CaEvent E
  session_opened : (slot_id session_id : ℕ) (resource_id : ResourceId) → CaEvent E
  session_refused : (slot_id : ℕ) (resource_id : ResourceId) (status : ℕ) → CaEvent E
  session_closed : (slot_id session_id : ℕ) (resource_id : ResourceId) → CaEvent E
  reported : (event : E) → CaEvent E

-- What a callback leaves in its `ResourceContext`, and what it returns.
pub record Called (R E : Type 0) : Type 0 where
  pub registry : R
  pub transport : CiTransport
  pub events : List E
  pub close_session : Bool
  pub result : Result (Unit {0})

-- The trait `Resource`, dispatched by the identifier of the resource.
pub record Resources (R E : Type 0) : Type 0 where
  pub on_open : (resource_id : ResourceId) (slot_id session_id : ℕ) → R → CiTransport → Called R E
  pub on_apdu :
      (resource_id : ResourceId) (slot_id session_id tag : ℕ) (body : List ℕ)
      → R
      → CiTransport
      → Called R E
  pub on_close : (resource_id : ResourceId) (slot_id session_id : ℕ) → R → R

pub record CiSession (R E : Type 0) : Type 0 where
  pub transport : CiTransport
  pub resources : R
  pub sessions : List (Option Session)
  pub events : List (CaEvent E)

abbrev pub S : Type 0 → Type 0 → Type 0 → Type 0
S R E A = CiSession R E → CiSession R E × Result A

abbrev pub proceed :
    {R E A B : Type 0} → CiSession R E × Result A → (A → S R E B) → CiSession R E × Result B
proceed (s, ok a) f = f a s
proceed (s, err e) f = (s, err e)
proceed (s, panic) f = (s, panic)

infixl 5 ◌>>=◌ ◌>>◌
abbrev pub ◌>>=◌ : {R E A B : Type 0} → S R E A → (A → S R E B) → S R E B
◌>>=◌ m f s = proceed (m s) f

abbrev pub ◌>>◌ : {R E A B : Type 0} → S R E A → S R E B → S R E B
m >> k = m >>= λ _. k

abbrev pub done : {R E A : Type 0} → Result A → S R E A
done r s = (s, r)

abbrev pub put_transport :
    {R E A : Type 0} → CiSession R E → CiTransport × Result A → CiSession R E × Result A
put_transport s (t, r) = (record s { transport = t }, r)

-- A call of a method of `self.transport`.
abbrev pub on_transport : {R E A : Type 0} → M A → S R E A
on_transport m s = put_transport s (m s.transport)

-- `self.events.push_back(event)`
abbrev pub push : {R E : Type 0} → CaEvent E → S R E (Unit {0})
push event s = (record s { events = s.events ++ (event ∷ []) }, ok tt)
