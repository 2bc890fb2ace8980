-- ===== src/Upper/Um/Overflow.antt =====
-- A PDU that is longer than its grant.
use srs_ue.Prelude.{
  ℕ, ◌+◌, ◌-◌, ◌≤◌, ◌<◌, ◌≡◌, refl, ap, ◌∙◌, ◌⊎◌, inl, inr, true, List, [], ◌∷◌, ◌++◌, none, some,
  ◌==◌, length, length-append, take_all, arith,
}
use srs_ue.Upper.UmHeader.{sn_5_bits, fixed_length, packed_length, write_data_pdu_header}
use srs_ue.Upper.UmHeader.Trip.{length-write_data_pdu_header}
use srs_ue.Upper.Um.Send.{
  Tx, Filling, fill, fill_pdu, start_filling, pull_sdus, move_sdu, to_move, no_filling, with_last,
  header_of, build_data_pdu,
}
use srs_ue.Upper.Um.Fits.{HasData}
use srs_ue.Upper.Um.Exchange.{build_lem}

stops :
    (head : ℕ) (q : List (List ℕ)) (f : Filling)
    → f.pdu_space ≤ head
    → pull_sdus sn_5_bits head q f ≡ record f { queue = q }
unfolding pull_sdus
stops head [] f h = refl
stops head (s ∷ q) f h = ground arith

-- All of an SDU is moved, in the two ways.
moved :
    (head : ℕ) (s : List ℕ) (f : Filling)
    → (f.pdu_space < head) ⊎ (head + length s ≤ f.pdu_space)
    → move_sdu head s f ≡ record f {
      last_li = length s;
      bytes = f.bytes ++ s;
      pdu_space = f.pdu_space - length s;
      sdu = none;
    }
unfolding move_sdu
moved head s f h =
    let all : to_move f.pdu_space head (length s) ≡ length s = ground arith in
    let whole : (length s == length s) ≡ true = ground arith in rw (all, whole, take_all s) refl

-- The rest of an SDU leaves two bytes.
abbrev two_left : List ℕ → List (List ℕ) → Filling
two_left x q = record {
  li = [];
  last_li = length x;
  bytes = x;
  pdu_space = 2;
  sdu = none;
  queue = q;
}

start_lem :
    (x : List ℕ) (q : List (List ℕ))
    → start_filling (length x + 2) sn_5_bits (some x) q ≡ two_left x q
unfolding start_filling
start_lem x q =
    let space : length x + 2 - length x ≡ 2 = omega arith in
    moved 1 x (no_filling (length x + 2) q) (inr (omega arith)) ∙ rw space refl

abbrev whole : List ℕ → List ℕ → List (List ℕ) → Filling
whole x s q = record {
  li = length x ∷ [];
  last_li = length s;
  bytes = x ++ s;
  pdu_space = 2 - length s;
  sdu = none;
  queue = q;
}

-- The head of the next round takes three.
pull_too_much :
    (x s : List ℕ) (q : List (List ℕ))
    → 0 < length x
    → pull_sdus sn_5_bits 1 (s ∷ q) (two_left x (s ∷ q)) ≡ whole x s q
unfolding pull_sdus
pull_too_much x s q h =
    let pushed : with_last (two_left x (s ∷ q)) ≡ length x ∷ [] = ground arith in
    let moved_all =
      moved 3 s (record (two_left x (s ∷ q)) { li = length x ∷ [] }) (inl (omega arith)) in
    rw (pull_sdus, pushed, moved_all, stops 3 q (whole x s (s ∷ q)) (ground arith)) refl

fill_too_much :
    (x s : List ℕ) (q : List (List ℕ))
    → 0 < length x
    → fill_pdu (length x + 2) sn_5_bits (some x) (s ∷ q) ≡ whole x s q
unfolding fill_pdu
fill_too_much x s q h =
    ap (λ f. pull_sdus sn_5_bits 1 (s ∷ q) f) (start_lem x (s ∷ q)) ∙ pull_too_much x s q h

-- With 5-bit sequence numbers, when the rest of an SDU leaves two bytes of a grant, the whole next SDU
-- is put into the PDU, whatever its length: the PDU is longer than the grant by that and a byte.
pub build_data_pdu-too_long :
    (t : Tx) (x s : List ℕ) (q : List (List ℕ))
    → t.tx_sn_field_length ≡ sn_5_bits
    → t.tx_sdu ≡ some x
    → t.tx_sdu_queue ≡ s ∷ q
    → 0 < length x
    → length (build_data_pdu true (length x + 2) t).1 ≡ length x + 2 + (length s + 1)
unfolding fill header_of packed_length
build_data_pdu-too_long t x s q z e e' h =
    let n = length x + 2 in
    let filled : fill n t ≡ whole x s q = rw (z, e, e') (fill_too_much x s q h) in
    let one : fixed_length t.tx_sn_field_length ≡ 1 = rw z refl in
    let some_data : HasData t.tx_sdu t.tx_sdu_queue = rw e tt in
    let hd = header_of t (whole x s q) in
    rw (build_lem n t (omega arith) some_data, filled)
      (omega (
        arith,
        length-append (write_data_pdu_header hd) (x ++ s),
        length-append x s,
        length-write_data_pdu_header hd,
      ))
