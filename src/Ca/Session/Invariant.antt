-- ===== src/Ca/Session/Invariant.antt =====
-- What holds of the session table between two calls.
use libdvb.Prelude.{
  ℕ, zero, suc, ◌≡◌, refl, arith, Bool, true, false, ◌||◌, List, Option, none, some, ltb, ◌==◌,
  if◌then◌else◌, Result, ok, err, panic, invalid_data, io, nix, invalid_property,
}
use libdvb.Ca.ResourceId.{ResourceId, version}
use libdvb.Ca.Spdu.{
  ss_ok, ss_busy, ss_not_allocated, ss_lower_version, build_open_session_response,
  build_close_session_request, build_close_session_response,
}
use libdvb.Ca.Transport.{M, send_spdu}
use libdvb.Ca.Session.Table.Pool.{Pool, in_use-take, change-Pool, alloc_session-Pool}
use libdvb.Ca.Session.{
  SessionState, active, closing, Session, CaEvent, session_opened, session_refused, malformed_data,
  Called, Resources, CiSession, S, proceed, ◌>>=◌, ◌>>◌, on_transport, push, alloc_session,
  session_at, is_of, freed, free_session, resource_result, after_call, opened, refused, allocated,
  open_available, open_session, set_state, reactivate, active_of, request_close, close_session,
  closing_of, completed, close_session_complete, lookup,
}

-- A call keeps the bound, whatever it returns.
abbrev pub Keeps : {R E A : Type 0} → S R E A → Type 0
Keeps {R} {E} m = (s : CiSession R E) → Pool s.sessions → Pool (m s).0.sessions

module _ {R E : Type 0} where
  pub bind-Pool :
      {A B : Type 0} (m : S R E A) (f : A → S R E B) (s : CiSession R E)
      → Pool (m s).0.sessions
      → ((a : A) → Keeps (f a))
      → Pool ((m >>= f) s).0.sessions
  bind-Pool {A} {B} m f s v k = go (m s) v
    where
      go :
          (r : CiSession R E × Result A)
          → Pool r.0.sessions
          → Pool (proceed {R = R} {E = E} {A = A} {B = B} r f).0.sessions
      go (s', ok a) v' = k a s' v'
      go (s', err e) v' = v'
      go (s', panic) v' = v'

  pub Keeps-bind :
      {A B : Type 0} (m : S R E A) (f : A → S R E B)
      → Keeps m
      → ((a : A) → Keeps (f a))
      → Keeps (m >>= f)
  Keeps-bind m f h k s v = bind-Pool m f s (h s v) k

  pub Keeps-transport : {A : Type 0} (m : M A) → Keeps {R = R} {E = E} (on_transport m)
  Keeps-transport {A} m s v = v

  -- A call of the transport, and `k` after it.
  pub Keeps-after : {A B : Type 0} (m : M A) (k : S R E B) → Keeps k → Keeps (on_transport m >> k)
  Keeps-after m k h = Keeps-bind (on_transport m) (λ _. k) (Keeps-transport m) λ _. h

  pub Keeps-push : (event : CaEvent E) → Keeps {R = R} {E = E} (push event)
  Keeps-push event s v = v

  pub Keeps-if :
      {A : Type 0} (b : Bool) (m k : S R E A) (s : CiSession R E)
      → Keeps m
      → Keeps k
      → Pool s.sessions
      → Pool (if b then m s else k s).0.sessions
  Keeps-if true m k s h h' v = h s v
  Keeps-if false m k s h h' v = h' s v

  pub Keeps-choice :
      {A : Type 0} (b : Bool) (m k : S R E A) → Keeps m → Keeps k → Keeps (if b then m else k)
  Keeps-choice true m k h h' = h
  Keeps-choice false m k h h' = h'

module _ {R E : Type 0} (calls : Resources R E) where
  freed-Keeps : (index : ℕ) (o : Option Session) → Keeps (freed calls index o)
  unfolding freed
  freed-Keeps index none s v slot_id = v slot_id
  freed-Keeps index (some session) s v slot_id =
      omega (arith, in_use-take slot_id s.sessions index, v slot_id)

  pub free_session-Keeps : (session_id : ℕ) → Keeps (free_session calls session_id)
  unfolding free_session
  free_session-Keeps zero s v = v
  free_session-Keeps (suc index) s v = freed-Keeps index (session_at s.sessions (suc index)) s v

  resource_result-Keeps :
      (slot_id : ℕ) (r : Result (Unit {0})) → Keeps (resource_result calls slot_id r)
  unfolding resource_result
  resource_result-Keeps slot_id (err invalid_data) s v = v
  resource_result-Keeps slot_id (err (io k)) s v = v
  resource_result-Keeps slot_id (err nix) s v = v
  resource_result-Keeps slot_id (err invalid_property) s v = v
  resource_result-Keeps slot_id (ok u) s v = v
  resource_result-Keeps slot_id panic s v = v

  pub after_call-Keeps : (slot_id : ℕ) (c : Called R E) → Keeps (after_call calls slot_id c)
  unfolding after_call
  after_call-Keeps slot_id c s v = resource_result-Keeps slot_id c.result _ v

  opened-Keeps :
      (slot_id session_id : ℕ) (resource_id : ResourceId)
      → Keeps (opened calls slot_id session_id resource_id)
  unfolding opened
  opened-Keeps slot_id session_id resource_id =
      Keeps-after (send_spdu slot_id (build_open_session_response ss_ok resource_id session_id))
        (push event >> λ s.
          after_call calls slot_id
            (calls.on_open resource_id slot_id session_id s.resources s.transport) s)
        λ s v.
          after_call-Keeps slot_id
            (calls.on_open resource_id slot_id session_id s.resources s.transport) (push event s).0
            v
    where
      event : CaEvent E
      event = session_opened slot_id session_id resource_id

  refused-Keeps :
      (slot_id : ℕ) (resource_id response : ResourceId) (code : ℕ)
      → Keeps (refused calls slot_id resource_id response code)
  unfolding refused
  refused-Keeps slot_id resource_id response code =
      Keeps-after (send_spdu slot_id (build_open_session_response code response 0))
        (push (session_refused slot_id resource_id code))
        (Keeps-push (session_refused slot_id resource_id code))

  allocated-Keeps :
      (slot_id : ℕ) (resource_id available : ResourceId) (r : List (Option Session) × Option ℕ)
      (s : CiSession R E)
      → Pool r.0
      → Pool (allocated calls slot_id resource_id available r s).0.sessions
  unfolding allocated
  allocated-Keeps slot_id resource_id available (sessions, none) s v =
      refused-Keeps slot_id resource_id available ss_busy (record s { sessions = sessions }) v
  allocated-Keeps slot_id resource_id available (sessions, some session_id) s v =
      opened-Keeps slot_id session_id available (record s { sessions = sessions }) v

  open_available-Keeps :
      (slot_id : ℕ) (resource_id : ResourceId) (o : Option ResourceId)
      → Keeps (open_available calls slot_id resource_id o)
  unfolding open_available
  open_available-Keeps slot_id resource_id none s v =
      refused-Keeps slot_id resource_id resource_id ss_not_allocated s v
  open_available-Keeps slot_id resource_id (some available) s v =
      Keeps-if (ltb (version available) (version resource_id))
        (refused calls slot_id resource_id available ss_lower_version)
        (λ s.
          allocated calls slot_id resource_id available (alloc_session slot_id available s.sessions)
            s)
        s (refused-Keeps slot_id resource_id available ss_lower_version)
        (λ s v.
          allocated-Keeps slot_id resource_id available (alloc_session slot_id available s.sessions)
            s (alloc_session-Pool slot_id available s.sessions v))
        v

  pub open_session-Keeps :
      (slot_id : ℕ) (resource_id : ResourceId) → Keeps (open_session calls slot_id resource_id)
  unfolding open_session
  open_session-Keeps slot_id resource_id =
      open_available-Keeps slot_id resource_id (lookup resource_id)

  set_state-Keeps :
      (index : ℕ) (state : SessionState) (o : Option Session) (s : CiSession R E)
      → session_at s.sessions (suc index) ≡ o
      → Pool s.sessions
      → Pool (set_state calls index state o s).0.sessions
  unfolding set_state
  set_state-Keeps index state none s e v = v
  set_state-Keeps index state (some session) s e v = change-Pool s.sessions index session _ e refl v

  pub request_close-Keeps :
      (slot_id session_id : ℕ) → Keeps (request_close calls slot_id session_id)
  unfolding request_close
  request_close-Keeps slot_id zero s v = v
  request_close-Keeps slot_id (suc index) s v =
      go (active_of slot_id (session_at s.sessions (suc index)))
    where
      o : Option Session
      o = session_at s.sessions (suc index)

      ask : S R E (Unit {0})
      ask = on_transport (send_spdu slot_id (build_close_session_request (suc index)))

      go :
          (b : Bool)
          → Pool (if b then (set_state calls index closing o >> ask) s else (s, ok tt)).0.sessions
      go false = v
      go true =
          bind-Pool (set_state calls index closing o) (λ _. ask) s
            (set_state-Keeps index closing o s refl v)
            λ _. Keeps-transport (send_spdu slot_id (build_close_session_request (suc index)))

  pub close_session-Keeps :
      (slot_id session_id : ℕ) → Keeps (close_session calls slot_id session_id)
  unfolding close_session
  close_session-Keeps slot_id session_id s v =
      Keeps-if (is_of slot_id (session_at s.sessions session_id))
        (on_transport (send_spdu slot_id (build_close_session_response ss_ok session_id))
          >> free_session calls session_id)
        (on_transport (send_spdu slot_id (build_close_session_response ss_not_allocated session_id))
          >> push (malformed_data slot_id))
        s
        (Keeps-after (send_spdu slot_id (build_close_session_response ss_ok session_id))
          (free_session calls session_id) (free_session-Keeps session_id))
        (Keeps-after (send_spdu slot_id (build_close_session_response ss_not_allocated session_id))
          (push (malformed_data slot_id)) (Keeps-push (malformed_data slot_id)))
        v

  reactivate-Keeps : (session_id : ℕ) → Keeps (reactivate calls session_id)
  unfolding reactivate
  reactivate-Keeps zero s v = v
  reactivate-Keeps (suc index) s v =
      set_state-Keeps index active (session_at s.sessions (suc index)) s refl v

  completed-Keeps : (slot_id session_id code : ℕ) → Keeps (completed calls slot_id session_id code)
  unfolding completed
  completed-Keeps slot_id session_id code s v =
      Keeps-if (code == ss_ok || code == ss_not_allocated) (free_session calls session_id)
        (reactivate calls session_id >> push (malformed_data slot_id)) s
        (free_session-Keeps session_id)
        (Keeps-bind (reactivate calls session_id) (λ _. push (malformed_data slot_id))
          (reactivate-Keeps session_id) λ _. Keeps-push (malformed_data slot_id))
        v

  pub close_session_complete-Keeps :
      (slot_id session_id code : ℕ) → Keeps (close_session_complete calls slot_id session_id code)
  unfolding close_session_complete
  close_session_complete-Keeps slot_id session_id code s v =
      Keeps-if (closing_of slot_id (session_at s.sessions session_id))
        (completed calls slot_id session_id code) (push (malformed_data slot_id)) s
        (completed-Keeps slot_id session_id code) (Keeps-push (malformed_data slot_id)) v
