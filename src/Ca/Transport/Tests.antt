-- ===== src/Ca/Transport/Tests.antt =====
-- The theorems on the transport at some inputs.
use libdvb.Prelude.{
  ℕ, zero, suc, ◌+◌, ◌≤◌, ◌≡◌, refl, arith, true, false, List, [], ◌∷◌, ◌++◌, ok, some, leb, length,
  length-append, set, get_elem?,
}
use mathlib.Core.List.{map}
use libdvb.Ca.Device.{CaDevice, Read, wrote, got}
use libdvb.Ca.Asn1.{coded_size_bounds}
use libdvb.Ca.Tpdu.{data_more, data_last, max_tpdu_size}
use libdvb.Ca.Tpdu.Build.{data_frame, length-data_frame}
use libdvb.Ca.Tpdu.RoundTrip.{status_object}
use libdvb.Ca.Transport.{TransportSlot, CiTransport, status, spdu, new, flush_slot, send_spdu}
use libdvb.Ca.Transport.Fragments.{IsSplit, frames, queued, send_spdu_busy}
use libdvb.Ca.Transport.Flush.{Flushed, flush_slot-Flushed}
use libdvb.Ca.Transport.Invariant.{Inv}
use libdvb.Ca.Transport.Runs.{apdu, receives, clears, run, run-Inv}
use libdvb.Ca.Transport.Reassembly.{Fragment, wire, receive_all, reassembly}

abbrev part : Fragment
part = record { tag = data_more; payload = 1 ∷ 2 ∷ []; status_byte = 0x80 }

abbrev rest : Fragment
rest = record { tag = data_last; payload = 3 ∷ []; status_byte = 0 }

-- A link that takes all frames, and from which `part` and then `rest` are read.
abbrev on_read : ℕ → Read
on_read zero = got (wire 0 part)
on_read (suc n) = got (wire 0 rest)

abbrev link : CaDevice
link = record {
  on_write = λ n msg. wrote (length msg);
  on_read = on_read;
  writes = 0;
  reads = 0;
  sent = [];
}

abbrev slot : TransportSlot
slot = record { busy = true; queue = (7 ∷ []) ∷ []; rx_buffer = []; data_pending = false }

abbrev transport : CiTransport
transport = record { link = link; slots = slot ∷ [] }

send_spdu_busy_example :
    (chunks : List (List ℕ)) × (last : List ℕ) × IsSplit (1 ∷ 2 ∷ 3 ∷ []) chunks last
    × (send_spdu 0 (1 ∷ 2 ∷ 3 ∷ []) transport ≡ (
      record transport { slots = set transport.slots 0 (queued slot (frames 0 chunks last)) },
      ok tt,
    ))
send_spdu_busy_example = send_spdu_busy 0 (1 ∷ 2 ∷ 3 ∷ []) transport slot (omega arith) refl refl

flush_slot-Flushed_example :
    Flushed (record slot { busy = false }) link (flush_slot (record slot { busy = false }) link)
flush_slot-Flushed_example = flush_slot-Flushed (record slot { busy = false }) link

run-Inv_example :
    Inv (run (new link 2) (apdu 0 1 0x9F8020 [] ∷ receives ∷ apdu 1 1 0x9F8020 [] ∷ clears 0 ∷ []))
run-Inv_example =
    run-Inv link 2 (apdu 0 1 0x9F8020 [] ∷ receives ∷ apdu 1 1 0x9F8020 [] ∷ clears 0 ∷ [])
      (omega arith)

wire-fits : (f : Fragment) → length f.payload ≤ 2 → length (wire 0 f) ≤ max_tpdu_size
wire-fits f h = omega (
  arith,
  length-append (data_frame 0 f.tag f.payload) (status_object 1 f.status_byte),
  length-data_frame 0 f.tag f.payload,
  coded_size_bounds (length f.payload + 1),
)

reassembly_example :
    ((receive_all 2 transport).1
      ≡ map (λ f. ok (some (status 0))) (part ∷ []) ++ (ok (some (spdu 0 (1 ∷ 2 ∷ 3 ∷ []))) ∷ []))
    × (get_elem? (receive_all 2 transport).0.slots 0
        ≡ some (record slot { busy = false; rx_buffer = []; data_pending = leb 128 0 }))
reassembly_example =
    reassembly (part ∷ []) rest transport 0 slot (omega arith) refl
      (record { carries = refl; byte = omega arith; fits = wire-fits part (omega arith) }, tt)
      (refl, tt)
      (record { carries = refl; byte = omega arith; fits = wire-fits rest (omega arith) }) refl
      (refl, (refl, tt)) (omega arith) (omega arith)
