-- ===== src/Fe/Tune/Request/ReadBack.antt =====
-- src/fe/tune.rs: the properties of tune requests, and what a frontend reads from them.
use libdvb.Prelude.{ℕ, Bool, true, false, Option, none, some, List, [], ◌∷◌, ◌++◌, ◌≡◌, ok}
use libdvb.Fe.Sys.{dvbs2, delivery_system_of}
use libdvb.Fe.Sys.Codes.{numbers}
use libdvb.Fe.Property.{
  ApiVersion, is_before_5_11, DtvProperty, frequency, modulation, inversion, symbol_rate, inner_fec,
  pilot, rolloff, delivery_system, stream_id, tune, push_all,
}
use libdvb.Fe.Tune.{Mis, pls_code}
use libdvb.Fe.Tune.Request.{
  DvbS2Tune, DvbT2Tune, DvbCAnnex, annex_a, annex_b, annex_c, DvbCTune, TuneRequest, tune_dvb_s,
  tune_dvb_s2, tune_dvb_c, tune_dvb_t, tune_dvb_t2, tune_atsc, tune_isdb_t, tuned, index_properties,
}
use libdvb.Fe.Tune.Request.Read.{stream, read_request, index_for, settled}

abbrev satellite_properties : DvbS2Tune → ℕ → Option ℕ → List DtvProperty
satellite_properties t plp index =
    delivery_system dvbs2
    ∷ frequency t.frequency_khz
    ∷ modulation t.modulation
    ∷ inversion t.inversion
    ∷ symbol_rate t.symbolrate
    ∷ inner_fec t.fec
    ∷ pilot t.pilot
    ∷ rolloff t.rolloff
    ∷ stream_id plp
    ∷ (index_properties index ++ (tune ∷ []))

-- The Boolean that tells the API and the index are any.
stream-read :
    (t : DvbS2Tune) (before : Bool) (mis : Mis) (index : Option ℕ)
    → read_request (push_all (satellite_properties t mis.stream_id index) before)
      ≡ ok (tune_dvb_s2 (record t { mis = some (stream mis.stream_id (index_for index before)) }))
unfolding delivery_system_of
stream-read t before mis none = simp numbers
stream-read t true mis (some index) = simp numbers
stream-read t false mis (some index) = simp numbers

satellite-read :
    (version : ApiVersion) (t : DvbS2Tune) (mis : Option Mis)
    → read_request (tuned version (tune_dvb_s2 (record t { mis = mis })))
      ≡ ok (settled version (tune_dvb_s2 (record t { mis = mis })))
unfolding delivery_system_of
satellite-read version t none = simp numbers
satellite-read version t (some mis) = stream-read t (is_before_5_11 version) mis (pls_code mis)

cable-read :
    (version : ApiVersion) (t : DvbCTune) (annex : DvbCAnnex)
    → read_request (tuned version (tune_dvb_c (record t { annex = annex })))
      ≡ ok (tune_dvb_c (record t { annex = annex }))
unfolding delivery_system_of
cable-read version t annex_a = simp numbers
cable-read version t annex_b = simp numbers
cable-read version t annex_c = simp numbers

second-read :
    (version : ApiVersion) (t : DvbT2Tune) (plp : Option ℕ)
    → read_request (tuned version (tune_dvb_t2 (record t { stream_id = plp })))
      ≡ ok (tune_dvb_t2 (record t { stream_id = plp }))
unfolding delivery_system_of
second-read version t none = simp numbers
second-read version t (some plp) = simp numbers

-- The properties of a request, as they are handed to the kernel, end with the only tune command and
-- are read back as the request: no field is lost or taken for another, and each enumerated value is
-- read from the number that stands for it. Of a scrambling sequence the index is read, with an API
-- of 5.11 or later.
pub read_request-tuned :
    (version : ApiVersion) (request : TuneRequest)
    → read_request (tuned version request) ≡ ok (settled version request)
unfolding delivery_system_of
read_request-tuned version (tune_dvb_s t) = simp numbers
read_request-tuned version (tune_dvb_s2 t) = satellite-read version t t.mis
read_request-tuned version (tune_dvb_c t) = cable-read version t t.annex
read_request-tuned version (tune_dvb_t t) = simp numbers
read_request-tuned version (tune_dvb_t2 t) = second-read version t t.stream_id
read_request-tuned version (tune_atsc t) = simp numbers
read_request-tuned version (tune_isdb_t t) = simp numbers
