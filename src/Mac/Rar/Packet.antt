-- ===== src/Mac/Rar/Packet.antt =====
-- Whole packets of random access responses.
use srs_ue.Prelude.{
  ℕ, suc, ◌+◌, ◌%◌, ◌≤◌, ◌<◌, ◌≡◌, refl, ap, Bool, true, false, not, List, [], ◌∷◌, ◌++◌,
  append_assoc, map, none, some, ◌==◌, length, take, drop, replicate, ◌>>>◌, low_bits, bit_or, u8,
  arith,
}
use srs_ue.Prelude.Bits.{or_field}
use srs_ue.Upper.AmStatus.{BitLibrary}
use srs_ue.Mac.Rar.{
  RarSubh, RarPdu, write_subheader, write_payload, write_subheaders, write_payloads, read_subheader,
  read_subheaders, read_payloads, backoff_octet, write_packet, parse_packet,
}
use srs_ue.Mac.Rar.Trip.{IsBytePacking, AllResponses, read-write_payload}

read-write_subheader :
    (is_last : Bool) (t s : RarSubh) (rest : List ℕ)
    → s.preamble < 64
    → read_subheader t (write_subheader is_last s ∷ rest)
      ≡ some (record t { preamble = s.preamble }, none, not is_last, rest)
unfolding read_subheader write_subheader
read-write_subheader true t s rest h =
    let octet : u8 (bit_or (bit_or 0 64) (low_bits s.preamble 6)) ≡ 64 + s.preamble =
      omega (arith, or_field 6 1 64 (s.preamble % 64) (omega arith) (omega arith)) in
    let last : (low_bits ((64 + s.preamble) >>> 7) 1 == 1) ≡ false = ground arith in
    let kind : (low_bits ((64 + s.preamble) >>> 6) 1 == 1) ≡ true = ground arith in
    let value : low_bits (64 + s.preamble) 6 ≡ s.preamble = omega arith in
    rw (octet, last, kind, value) refl
read-write_subheader false t s rest h =
    let octet : u8 (bit_or (bit_or 128 64) (low_bits s.preamble 6)) ≡ 192 + s.preamble =
      omega (arith, or_field 6 3 192 (s.preamble % 64) (omega arith) (omega arith)) in
    let last : (low_bits ((192 + s.preamble) >>> 7) 1 == 1) ≡ true = ground arith in
    let kind : (low_bits ((192 + s.preamble) >>> 6) 1 == 1) ≡ true = ground arith in
    let value : low_bits (192 + s.preamble) 6 ≡ s.preamble = omega arith in
    rw (octet, last, kind, value) refl

-- The vector's subheaders with the preambles that are read into them.
abbrev pub named : List RarSubh → List RarSubh → List RarSubh
named [] ts = []
named (s ∷ ss) [] = []
named (s ∷ ss) (t ∷ ts) = record t { preamble = s.preamble } ∷ named ss ts

pub read_subheaders-write :
    (s : RarSubh) (ss ts : List RarSubh) (rest : List ℕ)
    → AllResponses (s ∷ ss)
    → length (s ∷ ss) ≤ length ts
    → read_subheaders ts (write_subheaders (s ∷ ss) ++ rest)
      ≡ some (named (s ∷ ss) ts, drop (length (s ∷ ss)) ts, none, rest)
unfolding read_subheaders write_subheaders
read_subheaders-write s ss [] rest v h = absurd (omega arith)
read_subheaders-write s [] (t ∷ ts) rest v h =
    rw (read_subheaders, read-write_subheader true t s rest v.0.preamble_bits) refl
read_subheaders-write s (u ∷ ss) (t ∷ ts) rest v h =
    let more : (suc (length ss) == 0) ≡ false = ground arith in
    rw
      (
        read_subheaders,
        more,
        read-write_subheader false t s (write_subheaders (u ∷ ss) ++ rest) v.0.preamble_bits,
        read_subheaders-write u ss ts rest v.1 (omega arith),
      )
      refl

-- A response as it arrives.
abbrev pub arrived : RarSubh → RarSubh
arrived s = record s { ta = s.ta % 256 }

pub length-named : (ss ts : List RarSubh) → length ss ≤ length ts → length (named ss ts) ≡ length ss
length-named [] ts h = refl
length-named (s ∷ ss) [] h = absurd (omega arith)
length-named (s ∷ ss) (t ∷ ts) h = ap suc (length-named ss ts (omega arith))

module _ (b : BitLibrary) (v : IsBytePacking b) where
  read_payloads-write :
      (ss ts : List RarSubh) (rest : List ℕ)
      → AllResponses ss
      → length ss ≤ length ts
      → read_payloads b (named ss ts) (write_payloads b ss ++ rest) ≡ some (map arrived ss)
  unfolding read_payloads write_payloads
  read_payloads-write [] ts rest r h = refl
  read_payloads-write (s ∷ ss) [] rest r h = absurd (omega arith)
  read_payloads-write (s ∷ ss) (t ∷ ts) rest r h =
      rw
        (
          read_payloads,
          append_assoc (write_payload b s) (write_payloads b ss) rest,
          read-write_payload b v (record t { preamble = s.preamble }) s
              (write_payloads b ss ++ rest) r.0,
          read_payloads-write ss ts rest r.1 (omega arith),
        )
        refl

  -- Without a backoff indicator a packet of at least one response, with any padding, is parsed to the
  -- responses that were written, each with the low eight bits of its timing advance, if the vector
  -- has a place for each.
  pub parse_packet-write_packet_plain :
      (p r : RarPdu) (s : RarSubh) (ss : List RarSubh)
      → p.has_backoff_indicator ≡ false
      → take p.nof_subheaders p.subheaders ≡ s ∷ ss
      → AllResponses (s ∷ ss)
      → length (s ∷ ss) ≤ length r.subheaders
      → parse_packet b (write_packet b p) r
        ≡ some (record r {
          subheaders = map arrived (s ∷ ss) ++ drop (length (s ∷ ss)) r.subheaders;
          nof_subheaders = length (s ∷ ss);
        })
  unfolding parse_packet write_packet
  parse_packet-write_packet_plain p r s ss plain taken all h =
      let zeros : List ℕ = replicate p.rem_len 0 in
      let front : backoff_octet p ≡ [] = rw (backoff_octet, plain) refl in
      let bytes : write_packet b p
          ≡ write_subheaders (s ∷ ss) ++ (write_payloads b (s ∷ ss) ++ zeros) =
        rw (front, taken) refl in
      rw
        (
          bytes,
          parse_packet,
          read_subheaders-write s ss r.subheaders (write_payloads b (s ∷ ss) ++ zeros) all h,
          read_payloads-write (s ∷ ss) r.subheaders zeros all h,
          length-named (s ∷ ss) r.subheaders h,
        )
        refl
