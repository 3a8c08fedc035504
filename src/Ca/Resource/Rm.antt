-- ===== src/Ca/Resource/Rm.antt =====
-- src/ca/resource/rm.rs: the resource manager. Its state is the encoded profile.
use libdvb.Prelude.{ℕ, ◌<◌, ◌≡◌, refl, arith, List, [], ◌∷◌, ◌==◌, if◌then◌else◌, u8, shr, All}
use libdvb.Prelude.Bits.{be32, be32_lem}
use libdvb.Ca.Apdu.Tags.{profile_enq_tag, profile_tag, profile_change_tag}
use libdvb.Ca.ResourceId.{ResourceId}
use libdvb.Ca.Transport.{CiTransport}
use libdvb.Ca.Session.{Called}
use libdvb.Ca.Resource.Context.{ResourceEvent, reply, refuse}

abbrev pub ResourceManager : Type 0
ResourceManager = List ℕ

-- The loop over the identifiers.
pub new : List ResourceId → ResourceManager
new [] = []
new (raw ∷ rest) = u8 (shr raw 24) ∷ u8 (shr raw 16) ∷ u8 (shr raw 8) ∷ u8 raw ∷ new rest

unfoldable pub on_open :
    ℕ → ℕ → ResourceManager → CiTransport → Called ResourceManager ResourceEvent
on_open slot_id session_id profile t = reply profile t slot_id session_id profile_enq_tag []

unfoldable pub on_apdu :
    ℕ → ℕ → ℕ → List ℕ → ResourceManager → CiTransport → Called ResourceManager ResourceEvent
on_apdu slot_id session_id tag body profile t =
    if tag == profile_tag
    then reply profile t slot_id session_id profile_change_tag []
    else if tag == profile_enq_tag
    then reply profile t slot_id session_id profile_tag profile
    else if tag == profile_change_tag
    then reply profile t slot_id session_id profile_enq_tag []
    else refuse profile t

-- Identifiers read four bytes at a time.
abbrev pub identifiers : List ℕ → List ResourceId
identifiers (a ∷ b ∷ c ∷ d ∷ rest) = be32 a b c d ∷ identifiers rest
identifiers rest = []

pub identifiers-new :
    (profile : List ResourceId)
    → All (λ r. r < 4294967296) profile
    → identifiers (new profile) ≡ profile
unfolding new
identifiers-new [] h = refl
identifiers-new (raw ∷ rest) h = ground (
  arith,
  be32_lem (u8 (shr raw 24)) (u8 (shr raw 16)) (u8 (shr raw 8)) (u8 raw),
  identifiers-new rest h.1,
)
