-- ===== src/Fe/Tune/Tests.antt =====
-- The theorems on scrambling sequences and tune requests at concrete values.
use libdvb.Prelude.{ℕ, ◌%◌, ◌≤◌, ◌≡◌, ◌≢◌, ◌⊎◌, refl, some, ok, All}
use libdvb.Fe.Sys.{fec3_4, rolloff_r20}
use libdvb.Fe.Property.{ApiVersion}
use libdvb.Fe.Tune.{Mis, root, pls_code}
use libdvb.Fe.Tune.Request.{TuneRequest, tune_dvb_s2, tuned}
use libdvb.Fe.Tune.Request.Defaults.{default_dvb_s2}
use libdvb.Fe.Tune.Request.Read.{read_request, settled}
use libdvb.Fe.Tune.Request.ReadBack.{read_request-tuned}
use libdvb.Fe.Tune.Search.{register, states_before, pls_code-register}

abbrev multistream : Mis
multistream = record { mode = root; code = 0x20000; stream_id = 1 }

pls_code-register_example :
    (g : ℕ) × (pls_code multistream ≡ some g)
    × (g ≤ 262143)
    × All (λ state. state ≢ 0x20000 % 262144) (states_before g)
    × ((register g ≡ 0x20000 % 262144) ⊎ (g ≡ 262143))
pls_code-register_example = pls_code-register multistream refl λ e. cc

abbrev recent : ApiVersion
recent = record { major = 5; minor = 11 }

abbrev request : TuneRequest
request = tune_dvb_s2 (record default_dvb_s2 {
  frequency_khz = 1294000;
  symbolrate = 27500000;
  fec = fec3_4;
  rolloff = rolloff_r20;
  mis = some multistream;
})

read_request-tuned_example : read_request (tuned recent request) ≡ ok (settled recent request)
read_request-tuned_example = read_request-tuned recent request
