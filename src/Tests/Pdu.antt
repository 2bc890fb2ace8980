-- ===== src/Tests/Pdu.antt =====
-- MAC PDUs at concrete inputs.
use srs_ue.Prelude.{
  ℕ, ◌+◌, ◌≤◌, ◌<◌, ◌≡◌, refl, ◌⊎◌, true, false, List, [], ◌∷◌, ◌++◌, none, some, length, take,
  get_or, replicate, ◌%◌, ◌*◌, ◌/◌, arith,
}
use srs_ue.Mac.Bsr.{size_header_sdu}
use srs_ue.Mac.Pdu.Subheader.{
  SchSubh, init, short_bsr, long_bsr, is_sdu, sizeof_ce, get_header_size,
}
use srs_ue.Mac.Pdu.Packet.{SchPdu, new_subh, init_buffer, set_sdu, has_space_sdu, sdu_space_bits}
use srs_ue.Mac.Pdu.Elements.{
  btable, set_element, buff_size_table, search_level, level, bsr_bytes, bsr_levels, c_rnti_bytes,
}
use srs_ue.Mac.Pdu.Write.{write_packet, header_sizes, plan_padding}
use srs_ue.Mac.Pdu.Parse.{parse_packet}
use srs_ue.Mac.Pdu.Wire.{sdus, elements}
use srs_ue.Mac.Pdu.Trip.{sent, delivered}
use srs_ue.Mac.Pdu.Built.{IsBuilt}
use srs_ue.Mac.Pdu.Start.{init_buffer-IsBuilt}
use srs_ue.Mac.Pdu.Keeps.{HasPlace, set_element-IsBuilt}
use srs_ue.Mac.Pdu.KeepsSdu.{sdu_subh}
use srs_ue.Mac.Pdu.KeepsBytes.{set_sdu-IsBuilt}
use srs_ue.Mac.Pdu.Written.{packet_of, write_packet-IsBuilt}
use srs_ue.Mac.Pdu.Items.{all_items}
use srs_ue.Mac.Pdu.Exchange.{parse_packet-write_packet}
use srs_ue.Mac.Pdu.Levels.{buff_size_table_bounds}
use srs_ue.Mac.Pdu.ElementTrip.{bsr_levels-long}

abbrev fresh : SchSubh
fresh = record {
  lcid = 0;
  nof_bytes = 0;
  payload = none;
  w_payload_ce = replicate 8 0;
  f_bit = false;
}

-- Four subheaders, 12 bytes for the uplink.
abbrev empty_pdu : SchPdu
empty_pdu = record {
  subheaders = replicate 4 fresh;
  pdu_len = 12;
  rem_len = 12;
  cur_idx = none;
  nof_subheaders = 0;
  max_subheaders = 4;
  pdu_is_ul = true;
  buffer_tx = replicate 33 0;
  total_sdu_len = 0;
  sdu_offset_start = 21;
  last_sdu_idx = none;
}

empty_pdu-IsBuilt : IsBuilt [] empty_pdu
unfolding init_buffer init
empty_pdu-IsBuilt =
    init_buffer-IsBuilt (replicate 33 0) 12 true empty_pdu (omega arith) (omega arith)

empty_pdu-HasPlace : HasPlace empty_pdu fresh
empty_pdu-HasPlace = record {
  at_end = refl;
  below_max = omega arith;
  max_small = omega arith;
  place = refl;
  element_room = refl;
}

abbrev bytes : List ℕ
bytes = 7 ∷ 8 ∷ 9 ∷ []

set_sdu-IsBuilt_example :
    IsBuilt ((sdu_subh 3 bytes fresh, bytes) ∷ []) (set_sdu 3 bytes (new_subh empty_pdu).0).0
set_sdu-IsBuilt_example =
    set_sdu-IsBuilt [] empty_pdu fresh 3 bytes empty_pdu-IsBuilt empty_pdu-HasPlace (omega arith)
      (omega arith) (omega arith)

-- A power headroom report of 5.
set_element-IsBuilt_example : IsBuilt [] (set_element 26 (5 ∷ []) (new_subh empty_pdu).0).0
unfolding sizeof_ce
set_element-IsBuilt_example =
    set_element-IsBuilt [] empty_pdu fresh 26 (5 ∷ []) empty_pdu-IsBuilt empty_pdu-HasPlace
      (omega arith) (omega arith) (omega arith) refl (omega arith)

-- The SDU and the report, and six bytes left.
abbrev built_pdu : SchPdu
built_pdu = record empty_pdu {
  subheaders =
      record fresh { lcid = 3; nof_bytes = 3 }
      ∷ record fresh { lcid = 26; nof_bytes = 1; w_payload_ce = 5 ∷ replicate 7 0 }
      ∷ replicate 2 fresh;
  rem_len = 6;
  cur_idx = some 1;
  nof_subheaders = 2;
  buffer_tx = replicate 21 0 ++ (bytes ++ replicate 9 0);
  total_sdu_len = 3;
  last_sdu_idx = some 0;
}

built_pdu-IsBuilt : IsBuilt ((sdu_subh 3 bytes fresh, bytes) ∷ []) built_pdu
unfolding is_sdu sdus header_sizes get_header_size size_header_sdu sizeof_ce
built_pdu-IsBuilt = record {
  in_vector = omega arith;
  sendable = (
    record {
      lcid_bits = omega arith;
      sdu_size = λ e. omega arith;
      element_size = λ e. cc;
      element_room = refl;
    },
    (
      record {
        lcid_bits = omega arith;
        sdu_size = λ e. cc;
        element_size = λ e. refl;
        element_room = refl;
      },
      tt,
    ),
  );
  last = (
    [],
    record fresh { lcid = 3; nof_bytes = 3 },
    record fresh { lcid = 26; nof_bytes = 1; w_payload_ce = 5 ∷ replicate 7 0 } ∷ [],
    refl,
    refl,
    refl,
    refl,
  );
  accounted = refl;
  small = omega arith;
  are_sdus = refl;
  filled = (refl, tt);
  front = replicate 21 0;
  behind = replicate 9 0;
  buffer = refl;
  offset = refl;
  total = refl;
  room = omega arith;
}

write_packet-IsBuilt_example :
    ((write_packet built_pdu).1 ≡ some (packet_of built_pdu ((sdu_subh 3 bytes fresh, bytes) ∷ [])))
    × (length (packet_of built_pdu ((sdu_subh 3 bytes fresh, bytes) ∷ [])) ≡ 12)
unfolding is_sdu header_sizes get_header_size size_header_sdu plan_padding
write_packet-IsBuilt_example =
    write_packet-IsBuilt ((sdu_subh 3 bytes fresh, bytes) ∷ []) built_pdu built_pdu-IsBuilt
      (omega arith) (omega arith) (omega arith)

parse_packet-write_packet_example :
    (packet : List ℕ) × (q : SchPdu) × ((write_packet built_pdu).1 ≡ some packet)
    × (parse_packet packet empty_pdu ≡ some q)
    × (q.nof_subheaders ≡ length (all_items built_pdu ((sdu_subh 3 bytes fresh, bytes) ∷ [])))
    × (delivered (take q.nof_subheaders q.subheaders)
        ≡ sent (all_items built_pdu ((sdu_subh 3 bytes fresh, bytes) ∷ [])))
unfolding is_sdu header_sizes get_header_size size_header_sdu plan_padding elements
parse_packet-write_packet_example =
    parse_packet-write_packet built_pdu empty_pdu ((sdu_subh 3 bytes fresh, bytes) ∷ [])
      built_pdu-IsBuilt (omega arith) (omega arith) (omega arith) refl refl (omega arith)

buff_size_table_bounds_example :
    (0 < buff_size_table 1000)
    × (buff_size_table 1000 < 63)
    × (1000 ≤ get_or btable (buff_size_table 1000 + 1) 0)
    × ((get_or btable (buff_size_table 1000) 0 ≤ 1000) ⊎ ((buff_size_table 1000 ≡ 1) × (1000 < 10)))
buff_size_table_bounds_example = buff_size_table_bounds 1000 (omega arith) (omega arith)

abbrev report : SchSubh
report = record fresh {
  lcid = short_bsr;
  payload = some (bsr_bytes (0 ∷ 0 ∷ 700 ∷ 0 ∷ []) short_bsr ++ 1 ∷ 2 ∷ []);
}

abbrev queues : List ℕ
queues = 100 ∷ 2000 ∷ 30000 ∷ 4 ∷ []

bsr_levels-long_example :
    bsr_levels long_bsr (bsr_bytes queues long_bsr ++ []) []
    ≡ level queues 0
      ∷ level queues 1 % 16
      ∷ (level queues 2 / 16 * 16 + level queues 1 % 16 / 4)
      ∷ level queues 3
      ∷ []
bsr_levels-long_example = bsr_levels-long queues [] []

-- The second group's level does not arrive.
level_lost :
    (bsr_levels long_bsr (bsr_bytes queues long_bsr) [] ≡ 16 ∷ 3 ∷ 48 ∷ 1 ∷ [])
    × (level queues 1 ≡ 35)
unfolding bsr_levels bsr_bytes buff_size_table search_level btable
level_lost = (refl, refl)

abbrev identified : SchSubh
identified = record fresh { lcid = 27; nof_bytes = 2; payload = some (c_rnti_bytes 4660 ++ []) }

-- With nothing left, there is space for an SDU of any size.
space_in_full_pdu : has_space_sdu 1500 (record empty_pdu { rem_len = 0 }) ≡ true
unfolding has_space_sdu sdu_space_bits
space_in_full_pdu = refl
