-- ===== src/Ca/Resource/Mmi/Chains.antt =====
-- The objects that are put together, session by session.
use libdvb.Prelude.{
  ℕ, ◌+◌, ◌≤◌, ◌≡◌, refl, ap, ◌∙◌, Bool, List, [], ◌∷◌, ◌++◌, arith, length, length-append, none,
  some, Option, ◌==◌, ◌||◌, ltb, if◌then◌else◌,
}
use libdvb.Ca.Apdu.Tags.{
  text_last_tag, text_more_tag, menu_last_tag, menu_more_tag, list_last_tag, list_more_tag,
}
use libdvb.Ca.Transport.{CiTransport}
use libdvb.Ca.Resource.Table.{
  find, find-insert_self, find-insert_ne, find-remove_self, find-remove_ne,
}
use libdvb.Ca.Resource.Mmi.{
  MmiResource, on_apdu, on_close, max_object_size, or_default, more_fragment,
}

-- What the session layer asks of the resource, with the transport as it is then.
pub data MmiCall : Type 0 where
  receives : (slot_id session_id tag : ℕ) (body : List ℕ) (transport : CiTransport) → MmiCall
  closes : (session_id : ℕ) → MmiCall

unfoldable pub step : MmiResource → MmiCall → MmiResource
step fragments (receives slot_id session_id tag body transport) =
    (on_apdu slot_id session_id tag body fragments transport).registry
step fragments (closes session_id) = on_close session_id fragments

unfoldable pub run : MmiResource → List MmiCall → MmiResource
run fragments [] = fragments
run fragments (call ∷ calls) = run (step fragments call) calls

-- What an object does to a chain: it may extend it, or end it.
abbrev pub extends : ℕ → Bool
extends tag = tag == text_more_tag || tag == menu_more_tag || tag == list_more_tag

abbrev pub ends : ℕ → Bool
ends tag = tag == text_last_tag || tag == menu_last_tag || tag == list_last_tag

abbrev pub extended : List ℕ → List ℕ → Option (List ℕ)
extended chain body =
    if ltb max_object_size (length chain + length body) then none else some (chain ++ body)

-- The chain of one session, told by the calls of that session alone.
abbrev pub chain_after : ℕ → Option (List ℕ) → MmiCall → Option (List ℕ)
chain_after session_id chain (receives slot_id other tag body transport) =
    if session_id == other
    then if extends tag then extended (or_default chain) body else if ends tag then none else chain
    else chain
chain_after session_id chain (closes other) = if session_id == other then none else chain

abbrev pub chain_of : ℕ → Option (List ℕ) → List MmiCall → Option (List ℕ)
chain_of session_id chain [] = chain
chain_of session_id chain (call ∷ calls) =
    chain_of session_id (chain_after session_id chain call) calls

step-chain :
    (session_id : ℕ) (fragments : MmiResource) (call : MmiCall)
    → find session_id (step fragments call)
      ≡ chain_after session_id (find session_id fragments) call
unfolding step on_apdu more_fragment on_close
step-chain session_id fragments (closes other) =
    ground (arith, find-remove_self session_id fragments, find-remove_ne session_id other fragments)
step-chain session_id fragments (receives slot_id other tag body transport) =
    let grown = or_default (find other fragments) ++ body in
    ground (
      arith,
      find-remove_self session_id fragments,
      find-remove_ne session_id other fragments,
      find-insert_self session_id grown fragments,
      find-insert_ne session_id other grown fragments,
    )

run_from-chain :
    (session_id : ℕ) (fragments : MmiResource) (calls : List MmiCall)
    → find session_id (run fragments calls) ≡ chain_of session_id (find session_id fragments) calls
unfolding run
run_from-chain session_id fragments [] = refl
run_from-chain session_id fragments (call ∷ calls) =
    run_from-chain session_id (step fragments call) calls
    ∙ ap (λ chain. chain_of session_id chain calls) (step-chain session_id fragments call)

abbrev Bounded : Option (List ℕ) → Type 0
Bounded chain = length (or_default chain) ≤ max_object_size

chain_after-Bounded :
    (session_id : ℕ) (chain : Option (List ℕ)) (call : MmiCall)
    → Bounded chain
    → Bounded (chain_after session_id chain call)
chain_after-Bounded session_id chain (closes other) h = ground arith
chain_after-Bounded session_id chain (receives slot_id other tag body transport) h =
    ground (arith, length-append (or_default chain) body)

chain_of-Bounded :
    (session_id : ℕ) (chain : Option (List ℕ)) (calls : List MmiCall)
    → Bounded chain
    → Bounded (chain_of session_id chain calls)
chain_of-Bounded session_id chain [] h = h
chain_of-Bounded session_id chain (call ∷ calls) h =
    chain_of-Bounded session_id (chain_after session_id chain call) calls
      (chain_after-Bounded session_id chain call h)

-- After any calls, what is kept of a session's object is what the calls of that session alone tell:
-- the *_more objects since the last end or overflow, in order. It is never longer than
-- `MAX_OBJECT_SIZE`.
pub run-chain :
    (session_id : ℕ) (calls : List MmiCall)
    → (find session_id (run [] calls) ≡ chain_of session_id none calls)
      × (length (or_default (find session_id (run [] calls))) ≤ max_object_size)
unfolding find
run-chain session_id calls =
    let same : find session_id (run [] calls) ≡ chain_of session_id none calls =
      run_from-chain session_id [] calls in
    (same, rw same (chain_of-Bounded session_id none calls (omega arith)))
