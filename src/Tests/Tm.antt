-- ===== src/Tests/Tm.antt =====
-- A transparent-mode entity with two SDUs.
use srs_ue.Prelude.{refl, none, some, [], ◌∷◌, arith}
use srs_ue.Common.MsgQueue.Fifo.{Holds, Taken}
use srs_ue.Upper.Tm.{Entity, n_bytes, read_pdu, empty_queue}
use srs_ue.Upper.Tm.Fifo.{Emptied, first_within, read_pdu_refines, empty_queue-Emptied}

abbrev two_sdus : Entity
two_sdus = record {
  buf = some (4 ∷ []) ∷ none ∷ some (1 ∷ 2 ∷ 3 ∷ []) ∷ [];
  capacity = 3;
  unread = 2;
  unread_bytes = 4;
  head = 1;
  tail = 2;
}

two_sdus-Holds : Holds n_bytes two_sdus ((1 ∷ 2 ∷ 3 ∷ []) ∷ (4 ∷ []) ∷ [])
two_sdus-Holds = record {
  room = omega arith;
  some_room = omega arith;
  in_range = omega arith;
  small = omega arith;
  counted = refl;
  fits = omega arith;
  behind = refl;
  bytes = refl;
  slots = (refl, (refl, tt));
}

read_pdu_refines_example :
    Taken n_bytes (read_pdu 2 two_sdus) (some (first_within 2 (1 ∷ 2 ∷ 3 ∷ []) ((4 ∷ []) ∷ [])))
read_pdu_refines_example =
    read_pdu_refines 2 two_sdus (1 ∷ 2 ∷ 3 ∷ []) ((4 ∷ []) ∷ []) two_sdus-Holds

empty_queue-Emptied_example : Emptied (empty_queue two_sdus)
empty_queue-Emptied_example =
    empty_queue-Emptied ((1 ∷ 2 ∷ 3 ∷ []) ∷ (4 ∷ []) ∷ []) two_sdus two_sdus-Holds
