-- ===== src/Mac/Pdu/KeepsSdu.antt =====
-- An SDU that is put into a PDU keeps what holds of it while it is built.
use srs_ue.Prelude.{
  ℕ, zero, suc, ◌+◌, ◌-◌, ◌%◌, ◌≤◌, ◌<◌, ◌≡◌, refl, sym, ap, ◌∙◌, ◌≢◌, Bool, true, List, [], ◌∷◌,
  ◌++◌, Option, none, some, ltb, leb, if◌then◌else◌, length, length-append, take, set, get_elem?,
  get_elem?-set_self, get_elem?-set_ne, get_elem?-append_mid, u32, arith,
}
use srs_ue.Prelude.Int.{pos, negsuc}
use srs_ue.Mac.Bsr.{size_header_sdu}
use srs_ue.Mac.Pdu.Subheader.{SchSubh, get_header_size}
use srs_ue.Mac.Pdu.Packet.{
  SchPdu, new_subh, update_current, payload_size_at, growth_at, last_header_growth, sdu_space_bits,
  has_space_sdu, update_space_sdu, write_at, add_sdu, write_sdu, set_sdu, count_sdu, with_size,
  to_int,
}
use srs_ue.Mac.Pdu.Write.{growth_of}
use srs_ue.Mac.Pdu.Wire.{LastSdu}
use srs_ue.Mac.Pdu.Built.{active}
use srs_ue.Mac.Pdu.Written.{get_elem?-take}
use srs_ue.Mac.Pdu.Grow.{set-set, lt-length}
use srs_ue.Mac.Pdu.Keeps.{HasPlace, new_subh_lem}

-- The subheader of an SDU that is put.
abbrev pub sdu_subh : ℕ → List ℕ → SchSubh → SchSubh
sdu_subh lcid bytes s = record s { lcid = lcid; nof_bytes = length bytes }

abbrev pub with_sdu : ℕ → List ℕ → SchSubh → SchPdu → SchPdu
with_sdu lcid bytes s p = record p {
  nof_subheaders = p.nof_subheaders + 1;
  cur_idx = some p.nof_subheaders;
  rem_len = p.rem_len - (length bytes + 1 + growth_of p.last_sdu_idx p.subheaders);
  subheaders = set p.subheaders p.nof_subheaders (sdu_subh lcid bytes s);
  buffer_tx = write_at (p.total_sdu_len + p.sdu_offset_start) bytes p.buffer_tx;
  total_sdu_len = p.total_sdu_len + length bytes;
  last_sdu_idx = some p.nof_subheaders;
}

length-take-le : (n : ℕ) (ss : List SchSubh) → length (take n ss) ≤ n
length-take-le zero ss = omega arith
length-take-le (suc n) [] = omega arith
length-take-le (suc n) (s ∷ ss) = omega (arith, length-take-le n ss)

-- It is what `write_packet` adds, also once the subheader behind those in use is set.
growth_lem :
    (n : ℕ) (all : List SchSubh) (last : Option ℕ) (t : SchSubh)
    → LastSdu 0 last (take n all)
    → (growth_at last all ≡ growth_of last all)
      × (growth_at last (set all n t) ≡ growth_of last all)
unfolding get_header_size
growth_lem n all none t l = (refl, refl)
growth_lem n all (some k) t (pre, s, post, e, hk, d, c) =
    let first : k ≡ length pre = omega arith in
    let inside : k < length (take n all) =
      omega (arith, ap length e, length-append pre (s ∷ post)) in
    let below : n ≢ k = λ e. absurd (omega (arith, length-take-le n all)) in
    let found : get_elem? all k ≡ some s =
      sym (get_elem?-take n k all inside)
      ∙ ap (λ (l : List SchSubh). get_elem? l k) e
      ∙ ap (get_elem? (pre ++ s ∷ post)) first
      ∙ get_elem?-append_mid pre s post in
    let size : growth_of (some k) all ≡ size_header_sdu s.nof_bytes - 1 =
      rw (growth_of, found, d) refl in
    (
      rw (growth_at, payload_size_at, found) (sym size),
      rw (growth_at, payload_size_at, get_elem?-set_ne all t below, found) (sym size),
    )

space_lem :
    (p : SchPdu) (n g : ℕ)
    → last_header_growth p ≡ g
    → n + 1 + g ≤ p.rem_len
    → p.rem_len < 2147483648
    → (has_space_sdu n p ≡ true)
      × ((update_space_sdu n p).0
          ≡ record p { rem_len = p.rem_len - (n + 1 + g); last_sdu_idx = p.cur_idx })
unfolding has_space_sdu update_space_sdu sdu_space_bits
space_lem p n g e fits small =
    let room : leb n ((p.rem_len + 4294967296 - (g + 1)) % 4294967296) ≡ true = ground arith in
    let left : (p.rem_len + 4294967296 - (n + 1 + g) % 4294967296) % 4294967296
        ≡ p.rem_len - (n + 1 + g) =
      omega arith in
    (rw (e, room) refl, rw (e, room, left) refl)

pub set_sdu_lem :
    (p : SchPdu) (s : SchSubh) (lcid : ℕ) (bytes : List ℕ)
    → HasPlace p s
    → LastSdu 0 p.last_sdu_idx (active p)
    → length bytes + 1 + growth_of p.last_sdu_idx p.subheaders ≤ p.rem_len
    → p.rem_len < 2147483648
    → p.total_sdu_len + length bytes < 2147483648
    → set_sdu lcid bytes (new_subh p).0 ≡ (with_sdu lcid bytes s p, pos (length bytes))
unfolding set_sdu add_sdu write_sdu
set_sdu_lem p s lcid bytes h l fits small total =
    let n = p.nof_subheaders in
    let s1 : SchSubh = record s { lcid = lcid } in
    let g = growth_of p.last_sdu_idx p.subheaders in
    let growth = growth_lem n p.subheaders p.last_sdu_idx s1 l in
    let p1 : SchPdu = record p { nof_subheaders = n + 1; cur_idx = some n } in
    let p2 : SchPdu = record p1 { subheaders = set p.subheaders n s1 } in
    let p3 : SchPdu = record p2 {
      buffer_tx = write_at (p.total_sdu_len + p.sdu_offset_start) bytes p.buffer_tx;
      total_sdu_len = p.total_sdu_len + length bytes;
    } in
    let with_rem_len : SchPdu = record p3 {
      rem_len = p.rem_len - (length bytes + 1 + g);
      last_sdu_idx = some n;
    } in
    let fits1 = space_lem p1 (length bytes) g growth.0 fits small in
    let fits3 = space_lem p3 (length bytes) g growth.1 fits small in
    let whole : u32 (p.total_sdu_len + length bytes) ≡ p.total_sdu_len + length bytes =
      omega arith in
    let there : get_elem? (set p.subheaders n s1) n ≡ some s1 =
      get_elem?-set_self p.subheaders n s1 (lt-length n p.subheaders s h.place) in
    let small_int : ltb (length bytes) 2147483648 ≡ true = ground arith in
    let named : update_current (λ (t : SchSubh). record t { lcid = lcid }) p1 ≡ p2 =
      rw (update_current, h.place) refl in
    let counted : count_sdu (length bytes) (write_sdu bytes p2) ≡ with_rem_len =
      ap
        (λ (t : ℕ).
          (update_space_sdu (length bytes)
            (record p2 { buffer_tx = p3.buffer_tx; total_sdu_len = t })).0)
        whole
      ∙ fits3.1 in
    let sized : with_size (length bytes) with_rem_len ≡ with_sdu lcid bytes s p =
      rw (update_current, there, set-set n p.subheaders s1 (sdu_subh lcid bytes s)) refl in
    rw (new_subh_lem p s h, fits1.0)
      (ap
          (λ (q : SchPdu). (
            with_size (length bytes) (count_sdu (length bytes) (write_sdu bytes q)),
            to_int (length bytes),
          ))
          named
        ∙ ap (λ (q : SchPdu). (with_size (length bytes) q, to_int (length bytes))) counted
        ∙ ap (λ (q : SchPdu). (q, to_int (length bytes))) sized
        ∙ ap
            (λ (b : Bool). (
              with_sdu lcid bytes s p,
              if b then pos (length bytes) else negsuc (4294967295 - length bytes),
            ))
            small_int)
