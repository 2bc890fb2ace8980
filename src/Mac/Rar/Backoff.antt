-- ===== src/Mac/Rar/Backoff.antt =====
-- A packet of random access responses with a backoff indicator in front.
use srs_ue.Prelude.{
  ℕ, suc, ◌*◌, ◌≤◌, ◌<◌, ◌≡◌, refl, inl, inr, true, List, [], ◌∷◌, ◌++◌, append_assoc, none, some,
  Option-cases, ltb, length, length-append, length-replicate, take, drop, get_elem?, replicate,
  arith,
}
use srs_ue.Upper.AmStatus.{BitLibrary}
use srs_ue.Mac.Rar.{
  RarSubh, RarPdu, write_payload, write_subheaders, write_payloads, read_subheader, read_payload,
  read_subheaders, read_payloads, set_backoff, backoff_octet, write_packet, parse_packet,
}
use srs_ue.Mac.Rar.Trip.{IsBytePacking, AllResponses, answered, read-write_payload}
use srs_ue.Mac.Rar.Packet.{named, read_subheaders-write, length-named, arrived}

-- An octet with `E` and a backoff indicator of 0 takes the first subheader of the vector.
read_subheaders_backoff :
    (t : RarSubh) (ts got behind : List RarSubh) (bytes rest : List ℕ)
    → read_subheaders ts bytes ≡ some (got, behind, none, rest)
    → read_subheaders (t ∷ ts) (128 ∷ bytes) ≡ some (t ∷ got, behind, some 0, rest)
unfolding read_subheaders read_subheader
read_subheaders_backoff t ts got behind bytes rest e = rw e refl

module _ (b : BitLibrary) (v : IsBytePacking b) where
  -- Enough bytes for every subheader's payload.
  read_payloads_total :
      (ts : List RarSubh) (bytes : List ℕ)
      → length ts * 6 ≤ length bytes
      → (got : List RarSubh) × (read_payloads b ts bytes ≡ some got)
  unfolding read_payloads read_payload
  read_payloads_total [] bytes h = ([], refl)
  read_payloads_total (t ∷ ts) (x0 ∷ x1 ∷ x2 ∷ x3 ∷ x4 ∷ x5 ∷ rest) h =
      let (got, e) = read_payloads_total ts rest (omega arith) in
      elim (Option-cases (read_payloads b (t ∷ ts) (x0 ∷ x1 ∷ x2 ∷ x3 ∷ x4 ∷ x5 ∷ rest))) [
        | inl fails ↦ absurd (ground (arith, e))
        | inr found ↦ found
      ]
  read_payloads_total (t ∷ ts) _ h = absurd (omega arith)

  length-write_payloads : (ss : List RarSubh) → length (write_payloads b ss) ≡ length ss * 6
  unfolding write_payloads write_payload
  length-write_payloads [] = refl
  length-write_payloads (s ∷ ss) =
      omega
        (arith, length-append (write_payload b s) (write_payloads b ss), length-write_payloads ss)

  -- The subheaders' payloads where one subheader stands in front of those that have one.
  late_payloads :
      (t0 t1 s u : RarSubh) (ts ss : List RarSubh) (rest : List ℕ)
      → AllResponses (s ∷ u ∷ ss)
      → length ts * 6 ≤ length (write_payloads b ss ++ rest)
      → (got : List RarSubh) × (read_payloads b
            (t0 ∷ t1 ∷ ts)
            (write_payloads b (s ∷ u ∷ ss) ++ rest)
          ≡ some (answered t0 s ∷ answered t1 u ∷ got))
  unfolding read_payloads write_payloads
  late_payloads t0 t1 s u ts ss rest all h =
      let (got, e) = read_payloads_total ts (write_payloads b ss ++ rest) h in
      let regroup : write_payloads b (s ∷ u ∷ ss) ++ rest
          ≡ write_payload b s ++ (write_payload b u ++ (write_payloads b ss ++ rest)) =
        simp (append_assoc) in
      (
        got,
        rw
            (
              regroup,
              read_payloads,
              read-write_payload b v t0 s (write_payload b u ++ (write_payloads b ss ++ rest))
                  all.0,
              read-write_payload b v t1 u (write_payloads b ss ++ rest) all.1.0,
              e,
            )
            refl,
      )

  backoff_on :
      (p r : RarPdu) (s u : RarSubh) (ss ts : List RarSubh)
      → r.subheaders ≡ ts
      → p.has_backoff_indicator ≡ true
      → 0 < p.nof_subheaders
      → take p.nof_subheaders p.subheaders ≡ s ∷ u ∷ ss
      → AllResponses (s ∷ u ∷ ss)
      → 6 ≤ p.rem_len
      → suc (length (s ∷ u ∷ ss)) ≤ length ts
      → (q : RarPdu) × (parse_packet b (write_packet b p) r ≡ some q)
        × (q.has_backoff_indicator ≡ true)
        × (q.backoff_indicator ≡ 0)
        × (get_elem? q.subheaders 1 ≡ some (record (arrived u) { preamble = s.preamble }))
  unfolding parse_packet write_packet set_backoff read_subheaders
  backoff_on p r s u ss (t0 ∷ t1 ∷ ts) same marked some_subh taken all padded places =
      let zeros : List ℕ = replicate p.rem_len 0 in
      let some_lem : ltb 0 p.nof_subheaders ≡ true = ground arith in
      let front : backoff_octet p ≡ 128 ∷ [] = rw (backoff_octet, marked, some_lem) refl in
      let rest = write_payloads b (s ∷ u ∷ ss) ++ zeros in
      let bytes : write_packet b p ≡ 128 ∷ (write_subheaders (s ∷ u ∷ ss) ++ rest) =
        rw (front, taken) refl in
      let headers = read_subheaders-write s (u ∷ ss) (t1 ∷ ts) rest all (omega arith) in
      let behind = drop (length (s ∷ u ∷ ss)) (t1 ∷ ts) in
      let first =
        read_subheaders_backoff t0 (t1 ∷ ts) (named (s ∷ u ∷ ss) (t1 ∷ ts)) behind
          (write_subheaders (s ∷ u ∷ ss) ++ rest) rest headers in
      let size : length (named (u ∷ ss) ts) ≡ length (u ∷ ss) =
        length-named (u ∷ ss) ts (omega arith) in
      let (got, e) =
        late_payloads t0 (record t1 { preamble = s.preamble }) s u (named (u ∷ ss) ts) ss zeros all
          (omega (
            arith,
            size,
            length-append (write_payloads b ss) zeros,
            length-write_payloads ss,
            length-replicate {A = ℕ} p.rem_len 0,
          )) in
      let filled = answered t0 s ∷ answered (record t1 { preamble = s.preamble }) u ∷ got in
      (
        record r {
          subheaders = filled ++ behind;
          nof_subheaders = suc (length (named (s ∷ u ∷ ss) (t1 ∷ ts)));
          has_backoff_indicator = true;
          backoff_indicator = 0;
        },
        rw (bytes, parse_packet, same, first, e) refl,
        refl,
        refl,
        refl,
      )
  backoff_on p r s u ss _ same marked some_subh taken all padded places = absurd (omega arith)

  -- With a backoff indicator, at least two responses and six bytes of padding, the packet is parsed,
  -- with the indicator 0 whatever was set, and the subheader with the first response's preamble has
  -- the second response's values.
  pub parse_packet-write_packet_backoff :
      (p r : RarPdu) (s u : RarSubh) (ss : List RarSubh)
      → p.has_backoff_indicator ≡ true
      → 0 < p.nof_subheaders
      → take p.nof_subheaders p.subheaders ≡ s ∷ u ∷ ss
      → AllResponses (s ∷ u ∷ ss)
      → 6 ≤ p.rem_len
      → suc (length (s ∷ u ∷ ss)) ≤ length r.subheaders
      → (q : RarPdu) × (parse_packet b (write_packet b p) r ≡ some q)
        × (q.has_backoff_indicator ≡ true)
        × (q.backoff_indicator ≡ 0)
        × (get_elem? q.subheaders 1 ≡ some (record (arrived u) { preamble = s.preamble }))
  unfolding parse_packet write_packet set_backoff
  parse_packet-write_packet_backoff p r s u ss marked some_subh taken all padded places =
      backoff_on p r s u ss r.subheaders refl marked some_subh taken all padded places
