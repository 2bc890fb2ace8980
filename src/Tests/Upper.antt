-- ===== src/Tests/Upper.antt =====
-- The headers and PDUs of the upper layers at concrete inputs.
use srs_ue.Prelude.{
  ◌≡◌, refl, inl, inr, true, false, [], ◌∷◌, ◌++◌, map, some, arith, length, ◌%◌, replicate,
}
use srs_ue.Upper.UmHeader
use srs_ue.Upper.UmHeader.{sn_10_bits}
use srs_ue.Upper.UmHeader.Trip.{read-write_data_pdu_header}
use srs_ue.Upper.AmHeader
use srs_ue.Upper.AmHeader.{data_pdu}
use srs_ue.Upper.AmHeader.Trip.{read-write_amd_header}
use srs_ue.Upper.AmStatus
use srs_ue.Upper.AmStatus.{Status, read_status_pdu, write_status_pdu}
use srs_ue.Upper.AmStatus.Trip.{read-write_status_pdu}
use srs_ue.Tests.Bits.{bit_library, bit_library-IsBitLibrary}
use srs_ue.Upper.Pdcp.{Buffer, Entity, eia2, Algorithms, write_sdu}
use srs_ue.Upper.Pdcp.Trip.{carry, delivered, rlc, rrc, write_pdu-write_sdu}
use srs_ue.Upper.Pdcp.Security.{write_sdu-code_of}

abbrev um_header : UmHeader.Header
um_header = record { sn_size = sn_10_bits; fi = 3; sn = 700; li = 12 ∷ 1500 ∷ [] }

read-write_data_pdu_header_example :
    UmHeader.read_data_pdu_header sn_10_bits
      (UmHeader.write_data_pdu_header um_header ++ 1 ∷ 2 ∷ [])
    ≡ some um_header
read-write_data_pdu_header_example = read-write_data_pdu_header um_header (1 ∷ 2 ∷ []) (omega arith)

abbrev am_header : AmHeader.Header
am_header = record { dc = 1; rf = 1; p = 1; fi = 2; sn = 1023; lsf = 1; so = 300; li = 40 ∷ [] }

read-write_amd_header_example :
    (AmHeader.read_data_pdu_header (AmHeader.write_data_pdu_header am_header ++ 8 ∷ [])
      ≡ some (data_pdu am_header (8 ∷ [])))
    × (AmHeader.is_control_pdu (AmHeader.first_fixed 1 1 1 2 1 1023) ≡ false)
    × (AmHeader.is_pdu_segment (AmHeader.first_fixed 1 1 1 2 1 1023) ≡ true)
read-write_amd_header_example = read-write_amd_header am_header (8 ∷ []) (ground arith)

abbrev status : Status
status = record {
  ack_sn = 900;
  nacks =
      record { nack_sn = 5; has_so = false; so_start = 0; so_end = 0 }
      ∷ record { nack_sn = 1023; has_so = true; so_start = 10; so_end = 32767 }
      ∷ [];
}

read-write_status_pdu_example :
    (read_status_pdu bit_library (write_status_pdu bit_library status) ≡ some status)
    × (length (write_status_pdu bit_library status) ≡ 9)
unfolding AmStatus.packed_length
read-write_status_pdu_example =
    read-write_status_pdu bit_library status bit_library-IsBitLibrary (omega arith) (
      record {
        sn_fits = omega arith;
        start_fits = omega arith;
        end_fits = omega arith;
        unset = inr (refl, refl, refl);
      },
      (
        record {
          sn_fits = omega arith;
          start_fits = omega arith;
          end_fits = omega arith;
          unset = inl refl;
        },
        tt,
      ),
    )

abbrev algorithms : Algorithms
algorithms = record {
  run_eia1 = λ key count bearer dir message. record { m0 = 1; m1 = 1; m2 = 1; m3 = 1 };
  run_eia2 = λ key count bearer dir message. record {
    m0 = count % 256;
    m1 = bearer;
    m2 = length message % 256;
    m3 = length key;
  };
}

abbrev srb : Entity
srb = record {
  active = true;
  lcid = 1;
  do_security = true;
  sn_len = 12;
  tx_count = 40;
  rx_count = 0;
  k_rrc_enc = replicate 32 0;
  k_rrc_int = replicate 32 7;
  cipher_algo = 0;
  integ_algo = eia2;
}

abbrev sdu : Buffer
sdu = record { memory = 10 ∷ 11 ∷ 0 ∷ 0 ∷ 0 ∷ 0 ∷ []; n_bytes = 2 }

write_pdu-write_sdu_example :
    map delivered (carry (write_sdu algorithms sdu srb).1 srb) ≡ rrc 1 (10 ∷ 11 ∷ []) ∷ []
write_pdu-write_sdu_example = write_pdu-write_sdu algorithms sdu srb srb refl refl (omega arith)

write_sdu-code_of_example :
    (map delivered (write_sdu algorithms sdu srb).1
      ≡ rlc 1 (8 ∷ 10 ∷ 11 ∷ 40 ∷ 0 ∷ 3 ∷ 16 ∷ []) ∷ [])
    × ((write_sdu algorithms sdu srb).0 ≡ record srb { tx_count = 41 })
write_sdu-code_of_example = write_sdu-code_of algorithms sdu srb (inl refl) (omega arith)
