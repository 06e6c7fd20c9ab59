-- ===== src/Examples/Producing.antt =====
-- A replayed exposure of eight sensors, its headers and its encoding: daq.py and replay.py at work.
use donut_server.Prelude.{
  ℕ, ◌<◌, ◌≡◌, ◌↔◌, refl, subst, Bool, true, false, Option, none, some, List, [], ◌∷◌, ◌++◌, map,
  All, length, Distinct, keys, arith, eqb, lookup, put, if◌then◌else◌,
}
use donut_server.Bytes.{
  Bytes, Name, list_eqb, big_endian, name_eq, sort_names, insert_name, name_ltb,
}
use donut_server.Exec.{Outcome, ok, raise, ok_inj, ◌>>=◌, lift, pure, modify}
use donut_server.Daq
use donut_server.Daq.{
  Card, raftbay, ccdslot, emuimage, of_stack, Stack, RawSource, RawHandle, resolve_exposure_dir,
  detector_name, sw_paths, sorted, read_sensors, read_sensor, header_for, add, member, source_of,
  check_known_filter, least, joined,
}
use donut_server.Daq.Resolved.{IsResolved}
use donut_server.Daq.Encode.{
  Bench, Sensor, build_parts_parallel, encoded_blob, image_size, sensors_of, sort_ids, insert_id,
  body_of, encode_sensors, fill, frame, fan_out, write_images, gather_metas, encode_one,
  write_metas, lay_images, lay_metas, lay, slot_start, of_protocol, of_header,
}
use donut_server.Daq.Encoded.{build_parts_parallel-pack_blob}
use donut_server.Daq.Wire.{IsEncoded}
use donut_server.Daq.Blob.{wire_parts}
use donut_server.Protocol
use donut_server.Protocol.{
  pack_blob, pack_uint, pack_header, pack_descriptor, descriptor_region_size,
}
use donut_server.Protocol.Parts.{part_name}
use donut_server.Protocol.Framing.{
  build_framing, choose_offsets, missing_names, covering_length, offset_of, absolute_offsets,
  frame_descriptors,
}
use donut_server.Exec.Handlers.{catching, finally}
use donut_server.Daq.Released.{IsOutcome, encoded_blob-IsOutcome}
use donut_server.Daq.Memory.{overlay}
use donut_server.Daq.Shared.{Failure, World, clean, create, export_view, write, set_context}
use donut_server.Replay.{
  read_emuimage, gather_markers, note_marker, names_under, marker_of, only_marker,
  read_live_headers, replay_headers, read_headers,
}
use donut_server.Replay.Marker.{HasMarker, read_emuimage_iff}
use donut_server.Replay.Substitute.{
  Env, set_to, resolve, substituted_headers, substitute, chosen_exposure, report_headers, say,
}
use donut_server.Replay.Matched.{AreFrom, resolve-AreFrom}
use donut_server.Examples.Blobs.{plain}

-- whether it is of the original exposure, and the number of its sensor
abbrev ToyHeader : Type 0
ToyHeader = Bool × ℕ

abbrev toy_card : ToyHeader → Card → Option Name
toy_card (original, i) raftbay = some (i ∷ [])
toy_card (original, i) ccdslot = some []
toy_card (false, i) emuimage = some (9 ∷ [])
toy_card _ _ = none

-- the live files are under 1, and those of the original under 2 and 9
abbrev toy_header : Name → Outcome Daq.Error ToyHeader
toy_header (d ∷ i ∷ []) = if eqb d 1 then ok (false, i) else raise (of_stack 1)
toy_header (d ∷ e ∷ i ∷ []) = ok (true, i)
toy_header _ = raise (of_stack 0)

abbrev eight : List ℕ
eight = 0 ∷ 1 ∷ 2 ∷ 3 ∷ 4 ∷ 5 ∷ 6 ∷ 7 ∷ []

-- g_6
abbrev toy_filter : Name
toy_filter = b'g' ∷ b'_' ∷ b'6' ∷ []

abbrev toy_stack : Stack
toy_stack = record {
  Header = ToyHeader;
  Value = Name;
  Degrees = ℕ;
  card = toy_card;
  is_none = λ v. false;
  same = list_eqb;
  text = λ v. v;
  strip = λ n. n;
  of_text = λ n. n;
  Info = ToyHeader;
  obs_info = λ h. ok h;
  detector_num = λ i. i.1;
  physical_filter = λ i. toy_filter;
  exposure_id = λ i. if i.0 then 50 else 60;
  observation_type = λ i. 1 ∷ [];
  tracking_radec = λ i. some (10, 20);
  midpoint = λ i. ok (i.1 ∷ []);
  glob_sw = λ directory. map (λ i. directory ++ i ∷ []) eight;
  glob_compressed = λ directory. [];
  is_dir = λ directory. true;
  join = λ a b. a ++ b;
  read_header = toy_header;
}

abbrev toy_env : Env
toy_env = record { replay_dir = some (2 ∷ []); replay_obsid = none }

abbrev toy_handle : ℕ → ℕ × RawHandle toy_stack
toy_handle i = (i, record { path = 1 ∷ i ∷ []; header = (true, i); detector_num = i })

abbrev toy_source : RawSource ℕ (RawHandle toy_stack)
toy_source = record {
  visit = 50;
  physical_filter = toy_filter;
  handles = map toy_handle eight;
  boresight = some (10, 20);
  calib_time = some (0 ∷ []);
}

resolved : resolve toy_stack toy_env (1 ∷ []) false [] ≡ (ok (toy_source, 1 ∷ []), [])
unfolding resolve substituted_headers substitute chosen_exposure report_headers say read_emuimage
    gather_markers note_marker names_under marker_of only_marker read_live_headers replay_headers
    read_headers detector_name sw_paths sorted sort_names insert_name name_ltb resolve_exposure_dir
    read_sensors read_sensor header_for add member source_of check_known_filter least joined set_to
    lookup put list_eqb ◌>>=◌ lift pure modify
resolved = refl

resolve-AreFrom_example :
    AreFrom toy_stack toy_env (some (2 ∷ [])) (1 ∷ []) toy_source.handles
    × ((headers : Option (List (Name × ToyHeader))) × IsResolved toy_stack headers
          (1 ∷ [])
          toy_source)
unfolding set_to
resolve-AreFrom_example =
    resolve-AreFrom toy_stack toy_env (1 ∷ []) false [] [] toy_source (1 ∷ []) resolved

abbrev toy_headers : List (Name × ToyHeader)
toy_headers = ((1 ∷ []), (false, 1)) ∷ ((0 ∷ []), (false, 0)) ∷ []

read_emuimage_iff_example :
    (read_emuimage toy_stack toy_headers ≡ ok (9 ∷ []))
    ↔ ((0 < 2) × (0 < 1) × All (HasMarker toy_stack (9 ∷ [])) toy_headers)
read_emuimage_iff_example = read_emuimage_iff toy_stack toy_headers (9 ∷ [])

abbrev four_bytes : ℕ → Bytes
four_bytes n = n ∷ n ∷ n ∷ n ∷ []

abbrev toy_bench : Bench toy_stack
toy_bench = record {
  image_shape = λ n. (1, 1);
  assemble = λ h. ok ((1, 1), four_bytes h.detector_num);
  assembled_size = λ h shape pixels e.
      subst (λ (r : (ℕ × ℕ) × Bytes). length r.1 ≡ image_size r.0) (ok_inj e) refl;
  encode_stub = λ h. ok (7 ∷ []);
  serial_set = false;
  clamped = true;
  free_bytes = none;
  can_create = true;
  pool_fails = false;
  is_interrupted = false;
  order = λ ss. ss;
  order_all = λ ss s at. at;
  order_only = λ ss s at. at;
  load_encoded = λ h. ok ((h.detector_num ∷ []), (four_bytes h.detector_num, 7 ∷ []));
}

-- the body of the caller's `with`, which keeps no view
abbrev read_out : Bytes → Outcome Failure Bytes × ℕ
read_out blob = (ok blob, 0)

encoded_blob-IsOutcome_example :
    IsOutcome toy_stack toy_bench plain read_out toy_source.handles
      (build_parts_parallel toy_stack toy_bench plain toy_source clean)
      (encoded_blob toy_stack toy_bench plain read_out toy_source clean)
encoded_blob-IsOutcome_example =
    encoded_blob-IsOutcome toy_stack toy_bench plain read_out toy_source

-- two of the sensors
abbrev two_sensors : List (Sensor toy_stack)
two_sensors =
    record { det_id = 0; handle = (toy_handle 0).1; name = 0 ∷ b'_' ∷ []; shape = (1, 1) }
    ∷ record { det_id = 1; handle = (toy_handle 1).1; name = 1 ∷ b'_' ∷ []; shape = (1, 1) }
    ∷ []

abbrev two_source : RawSource ℕ (RawHandle toy_stack)
two_source = record toy_source { handles = toy_handle 1 ∷ toy_handle 0 ∷ [] }

two_known : sensors_of toy_stack toy_bench (sort_ids two_source.handles) ≡ ok two_sensors
unfolding sensors_of detector_name sort_ids insert_id
two_known = refl

abbrev two_world : World
two_world = (build_parts_parallel toy_stack toy_bench plain two_source clean).1

two_built : build_parts_parallel toy_stack toy_bench plain two_source clean ≡ (ok 120, two_world)
unfolding build_parts_parallel encode_sensors sensors_of detector_name sort_ids insert_id of_header
    of_protocol lay_images lay part_name descriptor_region_size create fill set_context fan_out
    write_images encode_one slot_start write overlay gather_metas export_view lay_metas frame
    build_framing choose_offsets missing_names covering_length offset_of absolute_offsets
    frame_descriptors pack_descriptor pack_uint pack_header write_metas catching finally lookup put
    list_eqb ◌>>=◌ lift pure big_endian
two_built = refl

parts_apart : Distinct (keys (wire_parts toy_stack toy_bench two_sensors))
unfolding part_name
parts_apart = ground arith

build_parts_parallel-pack_blob_example :
    All (IsEncoded toy_stack toy_bench) two_sensors
    × (pack_blob plain (wire_parts toy_stack toy_bench two_sensors)
        ≡ Protocol.ok (body_of toy_stack toy_bench 120 two_world))
build_parts_parallel-pack_blob_example =
    build_parts_parallel-pack_blob toy_stack toy_bench plain two_source two_sensors 120 two_world
      two_known parts_apart two_built
