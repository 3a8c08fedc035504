-- ===== src/Ca/Controller/Tracked.antt =====
-- What the application sees of the slots: the statuses that the events tell.
use mathlib.Core.Path.{subst}
use libdvb.Prelude.{
  ℕ, ◌≡◌, refl, sym, ap, ◌∙◌, arith, true, false, List, [], ◌∷◌, ◌++◌, Option, none, some,
  get_elem?, set, ◌==◌, if◌then◌else◌, Bool-cases, ==→eq, inl, inr, get_elem?-lt,
  get_elem?-set_self, get_elem?-set_ne,
}
use libdvb.Ca.Controller.{
  CaSlotStatus, absent, present, creating_tc, active, failed, CamStatus, ControllerSlot,
  ControlEvent, slot_status_changed, cam_status_changed, slot_failed, passed, CiController, update,
  set_slot_status, set_cam_status, is_status, status_code, cam_code,
}
use libdvb.Ca.Controller.Kept.{SameStatus, Closed}

abbrev pub View : Type 0
View = ℕ → CaSlotStatus

-- A view after an event, for an application that keeps the last status it was told of each slot.
abbrev pub seen : View → ControlEvent → View
seen v (slot_status_changed slot_id old new) = λ s. if s == slot_id then new else v s
seen v (cam_status_changed slot_id old new) = v
seen v (slot_failed slot_id reason) = v
seen v (passed event) = v

-- Each change of a status starts from the status that the application has, and is a change; after the
-- events the application has the statuses `w`.
abbrev pub Follows : View → List ControlEvent → View → Type 0
Follows v [] w = (s : ℕ) → v s ≡ w s
Follows v (slot_status_changed slot_id old new ∷ rest) w =
    (v slot_id ≡ old)
    × (is_status old new ≡ false)
    × Follows (λ s. if s == slot_id then new else v s) rest w
Follows v (cam_status_changed slot_id old new ∷ rest) w = Follows v rest w
Follows v (slot_failed slot_id reason ∷ rest) w = Follows v rest w
Follows v (passed event ∷ rest) w = Follows v rest w

abbrev pub status_in : Option ControllerSlot → CaSlotStatus
status_in none = absent
status_in (some slot) = slot.status

abbrev pub statuses : List ControllerSlot → View
statuses slots s = status_in (get_elem? slots s)

-- The events that the application has not taken yet lead from its view to the statuses.
abbrev pub Tracks : View → CiController → Type 0
Tracks v c = Follows v c.events (statuses c.slots)

Follows-same :
    (events : List ControlEvent) (v w w' : View)
    → ((s : ℕ) → w s ≡ w' s)
    → Follows v events w
    → Follows v events w'
Follows-same [] v w w' e f = λ s. f s ∙ e s
Follows-same (slot_status_changed a b d ∷ rest) v w w' e f =
    (f.0, f.1, Follows-same rest (λ s. if s == a then d else v s) w w' e f.2)
Follows-same (cam_status_changed a b d ∷ rest) v w w' e f = Follows-same rest v w w' e f
Follows-same (slot_failed a b ∷ rest) v w w' e f = Follows-same rest v w w' e f
Follows-same (passed a ∷ rest) v w w' e f = Follows-same rest v w w' e f

-- One more event that leads from `w` to `w'`.
Follows-append :
    (events : List ControlEvent) (v w : View) (event : ControlEvent) (w' : View)
    → Follows v events w
    → ((u : View) → ((s : ℕ) → u s ≡ w s) → Follows u (event ∷ []) w')
    → Follows v (events ++ (event ∷ [])) w'
Follows-append [] v w event w' f k = k v f
Follows-append (slot_status_changed a b d ∷ rest) v w event w' f k =
    (f.0, f.1, Follows-append rest (λ s. if s == a then d else v s) w event w' f.2 k)
Follows-append (cam_status_changed a b d ∷ rest) v w event w' f k =
    Follows-append rest v w event w' f k
Follows-append (slot_failed a b ∷ rest) v w event w' f k = Follows-append rest v w event w' f k
Follows-append (passed a ∷ rest) v w event w' f k = Follows-append rest v w event w' f k

statuses-set :
    (slots : List ControllerSlot) (slot_id : ℕ) (old new : ControllerSlot) (s : ℕ)
    → get_elem? slots slot_id ≡ some old
    → statuses (set slots slot_id new) s ≡ (if s == slot_id then new.status else statuses slots s)
statuses-set slots slot_id old new s e = ground (
  arith,
  get_elem?-lt slots slot_id e,
  get_elem?-set_self slots slot_id new,
  get_elem?-set_ne slots slot_id s new,
)

-- A write to a slot that leaves its status.
put-Tracks :
    (v : View) (c : CiController) (slot_id : ℕ) (old new : ControllerSlot)
    → get_elem? c.slots slot_id ≡ some old
    → new.status ≡ old.status
    → Tracks v c
    → Tracks v (record c { slots = set c.slots slot_id new })
put-Tracks v c slot_id old new e same p =
    Follows-same c.events v (statuses c.slots) (statuses (set c.slots slot_id new))
      (λ s. ground (arith, statuses-set c.slots slot_id old new s e, ==→eq s slot_id)) p

update-Tracks :
    (v : View) (slot_id : ℕ) (f : ControllerSlot → ControllerSlot) (o : Option ControllerSlot)
    (c : CiController)
    → get_elem? c.slots slot_id ≡ o
    → SameStatus f
    → Tracks v c
    → Tracks v (update slot_id f c).0
unfolding update
update-Tracks v slot_id f none c e same p = rw e p
update-Tracks v slot_id f (some slot) c e same p =
    rw e (put-Tracks v c slot_id slot (f slot) e (same slot).0 p)

of_code : ℕ → CaSlotStatus
of_code code =
    if code == 0
    then absent
    else if code == 1
    then present
    else if code == 2
    then creating_tc
    else if code == 3
    then active
    else failed

of_code-status_code : (status : CaSlotStatus) → of_code (status_code status) ≡ status
unfolding of_code
of_code-status_code absent = refl
of_code-status_code present = refl
of_code-status_code creating_tc = refl
of_code-status_code active = refl
of_code-status_code failed = refl

pub is_status-eq : (a b : CaSlotStatus) → is_status a b ≡ true → a ≡ b
is_status-eq a b h =
    sym (of_code-status_code a)
    ∙ (ap of_code (==→eq (status_code a) (status_code b) h) ∙ of_code-status_code b)

-- A status is set: to the same one, or with the event.
set_status-Tracks :
    (v : View) (slot_id : ℕ) (status : CaSlotStatus) (o : Option ControllerSlot) (c : CiController)
    → get_elem? c.slots slot_id ≡ o
    → Tracks v c
    → Tracks v (set_slot_status slot_id status c).0
unfolding set_slot_status
set_status-Tracks v slot_id status none c e p = rw e p
set_status-Tracks v slot_id status (some slot) c e p =
    elim (Bool-cases (is_status slot.status status)) [
      | inl same ↦
          rw (e, same)
            (put-Tracks v c slot_id slot (record slot { status = status }) e
              (sym (is_status-eq slot.status status same)) p)
      | inr differ ↦
          rw (e, differ)
            (Follows-append c.events v (statuses c.slots)
              (slot_status_changed slot_id slot.status status)
              (statuses (set c.slots slot_id (record slot { status = status }))) p
              λ u known. (
                known slot_id ∙ ap status_in e,
                differ,
                λ s. ground (
                  arith,
                  known s,
                  statuses-set c.slots slot_id slot (record slot { status = status }) s e,
                ),
              ))
    ]

-- An event that tells no status.
quiet-Tracks :
    (v : View) (c : CiController) (event : ControlEvent) (slots : List ControllerSlot)
    → ((u w : View) → ((s : ℕ) → u s ≡ w s) → Follows u (event ∷ []) w)
    → ((s : ℕ) → statuses c.slots s ≡ statuses slots s)
    → Tracks v c
    → Follows v (c.events ++ (event ∷ [])) (statuses slots)
quiet-Tracks v c event slots quiet same p =
    Follows-append c.events v (statuses c.slots) event (statuses slots) p
      λ u known. quiet u (statuses slots) λ s. known s ∙ same s

cam_set-Tracks :
    (v : View) (slot_id : ℕ) (status : CamStatus) (o : Option ControllerSlot) (c : CiController)
    → get_elem? c.slots slot_id ≡ o
    → Tracks v c
    → Tracks v (set_cam_status slot_id status c).0
unfolding set_cam_status
cam_set-Tracks v slot_id status none c e p = rw e p
cam_set-Tracks v slot_id status (some slot) c e p =
    let new : ControllerSlot = record slot { cam_status = status } in
    let kept : (s : ℕ) → statuses c.slots s ≡ statuses (set c.slots slot_id new) s =
      λ s. ground (arith, statuses-set c.slots slot_id slot new s e, ==→eq s slot_id) in
    elim (Bool-cases (cam_code slot.cam_status == cam_code status)) [
      | inl same ↦ rw (e, same) (put-Tracks v c slot_id slot new e refl p)
      | inr differ ↦
          rw (e, differ)
            (quiet-Tracks v c (cam_status_changed slot_id slot.cam_status status)
              (set c.slots slot_id new) (λ u w known. known) kept p)
    ]

pub Tracks-Closed : (v : View) → Closed (Tracks v)
Tracks-Closed v = record {
  same = λ c d slots events p.
      subst (λ es. Follows v es (statuses d.slots)) (sym events)
        (subst (λ ss. Follows v c.events (statuses ss)) (sym slots) p);
  updated = λ slot_id f same. record {
    kept = λ c p. update-Tracks v slot_id f (get_elem? c.slots slot_id) c refl same p;
  };
  event_passed = λ event. record {
    kept = λ c p. quiet-Tracks v c (passed event) c.slots (λ u w known. known) (λ s. refl) p;
  };
  failure_told = λ slot_id reason. record {
    kept = λ c p.
        quiet-Tracks v c (slot_failed slot_id reason) c.slots (λ u w known. known) (λ s. refl) p;
  };
  status_set = λ slot_id status. record {
    kept = λ c p. set_status-Tracks v slot_id status (get_elem? c.slots slot_id) c refl p;
  };
  cam_set = λ slot_id status. record {
    kept = λ c p. cam_set-Tracks v slot_id status (get_elem? c.slots slot_id) c refl p;
  };
}
