-- ===== src/Lib.antt =====
-- libdvb is a Rust library for digital television devices of Linux. This library models the parts of
-- it that decide what goes over a wire: the stack of protocols that a host speaks with a conditional
-- access module over the common interface (EN 50221), with the controller that drives it, and
-- satellite equipment control.
--
-- Which file models what (paths from the repository's root; children hold the proofs, and `Tests` the
-- theorems at concrete inputs):
--   Prelude        src/error.rs, machine words, slices and indexing; shared lemmas
--   Ca.Asn1        src/ca/asn1.rs: `encode`, `decode`
--   Ca.Tpdu        src/ca/tpdu.rs: `build`, `frame_slot_id`, `parse`
--   Ca.ResourceId  src/ca/resource/mod.rs: resource identifiers
--   Ca.Spdu        src/ca/spdu.rs: `parse` and the four builders
--   Ca.Apdu        src/ca/apdu.rs: `build`, `parse_at` and the iterator; `Tags` the tags
--   Ca.Device      src/ca/mod.rs: `send_msg`, `recv_msg`
--   Ca.Transport   src/ca/transport.rs: `CiTransport`, one definition for each of its methods
--   Ca.Session     src/ca/session.rs: `Table` the session table, the file itself opening and closing,
--                  `Dispatch` what is done with a frame that was read
--   Ca.Resource    src/ca/resource/: `Rm`, `ApplicationInfo`, `HostControl`, `DateTime` and `Mmi`
--                  handlers, one file each; `Table` the maps, `Context` what a handler may do,
--                  `Registry` the handlers together
--   Ca.ConditionalAccess  src/ca/resource/conditional_access.rs: `set_program`, `remove_program`;
--                  `Objects` the callbacks and `synchronize_session`
--   Ca.Host        src/ca/session.rs: the methods of `CiSession` over the registry
--   Ca.Controller  src/ca/controller.rs: `State` slots and events; the file itself statuses and
--                  `collect_session_events`; `Recover` `recover_all` and `reset`; `Drive` one slot on a
--                  tick; `Poll` `poll_event`; `Tick` `tick`; `Commands` the rest; `Make` `from_parts`
--   Ca.Capmt       src/ca/capmt.rs: `Program::parse`, `build_ca_pmt`, `append_info`
--   Ca.Pacer       src/ca/pacer.rs: `CaPmtPacer`, one definition for each of its methods
--   Fe.Sec         src/fe/sec.rs: `sec_sequence` and what it calls
--   Fe.Sec.Dsl     src/fe/sec.rs: `Parser`
--   Fe.Sys         src/fe/sys.rs: the enumerations of tune properties and their numbers
--   Fe.Property    src/fe/mod.rs: `DtvProperty` and what `set_properties` hands to the kernel
--   Fe.Tune        src/fe/tune.rs: `Mis::pls_code`; `Request` the requests and `properties`
--
-- An APDU is put behind an SPDU header, an SPDU is cut into TPDUs, a TPDU is one frame on the device.
-- The session layer takes the resources as an interface, which the registry fills. The controller holds
-- a session, a pacer and its slots: a tick polls the slots and sends what the pacer releases, an event
-- of the session changes a slot's status, and each change of a status is put into a queue of events.
-- A tune request is lowered to properties, which the frontend's device hands to the kernel.
--
-- Bytes and machine words are natural numbers; where the source narrows or wraps, so does the model.
-- Times are numbers of nanoseconds. A `Result` has a third value, `panic`, for an index or slice out
-- of range, or for fuel that runs out. The texts of errors are left out. A `HashMap` is a list of
-- entries, a `BTreeMap` one in the order of its keys. The device is a parameter: for each write and
-- each read there is an answer, given by two functions that nothing is assumed of. So are the
-- requests to the control plane (slot information and reset) with the test for a short write that
-- reads the text of an error, and the system clock. The crate libmpegts, which reads PMT sections,
-- is a parameter of `Program::parse`: what it finds in a section, or that it fails.
--
-- Loops are structural, or run on fuel: `send_rounds`, the APDU iterator, the text parser of dialogue
-- objects and both loops of the command parser take one round more than there are bytes left. A round
-- takes a byte away at least, so the fuel is enough. `pls_search` counts down the rounds of its `for`
-- loop. The fuel of `poll_event` bounds the frames that one call reads; in the source it goes on for
-- as long as frames come without an event.
--
-- Not modelled: system calls (opening devices, ioctl, poll), kernel structures, the Debug printers,
-- the driver with its threads (src/ca/driver.rs), the frontend's statistics, which are computed with
-- floating-point numbers, and its device, the demultiplexer, recorder, network and modulator devices,
-- which pass requests to the kernel.
pub mod Prelude
pub mod Ca
pub mod Fe
