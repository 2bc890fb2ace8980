-- ===== src/Upper/Tm/Fifo.antt =====
-- The entity as a list of SDUs.
use srs_ue.Prelude.{
  ℕ, zero, suc, ◌<◌, ◌^◌, ◌≡◌, refl, inl, inr, List, [], ◌∷◌, Option, none, some, ltb,
  if◌then◌else◌, length, arith, Bool-cases,
}
use srs_ue.Common.MsgQueue
use srs_ue.Common.MsgQueue.{MsgQueue}
use srs_ue.Common.MsgQueue.Fifo.{Holds, Taken, read_refines, sizes}
use srs_ue.Upper.Tm.{n_bytes, Entity, empty_rounds, empty_queue, read_pdu}

n_bytes_wide : (sdu : List ℕ) → n_bytes sdu < 2 ^ 32
n_bytes_wide sdu = omega arith

-- An SDU that is not longer than the grant, or nothing.
abbrev pub first_within : ℕ → List ℕ → List (List ℕ) → List ℕ × List (List ℕ)
first_within nof_bytes sdu sdus =
    if ltb nof_bytes (n_bytes sdu) then ([], sdu ∷ sdus) else (sdu, sdus)

-- From a valid queue that is not empty, read_pdu sends the oldest SDU, whole, if its length in 32 bits
-- is not above the grant, and nothing else otherwise; the queue then holds the others, or all.
pub read_pdu_refines :
    (nof_bytes : ℕ) (q : Entity) (sdu : List ℕ) (sdus : List (List ℕ))
    → Holds n_bytes q (sdu ∷ sdus)
    → Taken n_bytes (read_pdu nof_bytes q) (some (first_within nof_bytes sdu sdus))
unfolding read_pdu
read_pdu_refines nof_bytes q sdu sdus v =
    let (counted, bytes, tail) = sizes n_bytes q sdu sdus v in
    elim (Bool-cases (ltb nof_bytes (n_bytes sdu))) [
      | inl long ↦ rw (read_pdu, tail, long) (refl, v)
      | inr fits ↦ rw (read_pdu, tail, fits) (read_refines n_bytes n_bytes_wide q (sdu ∷ sdus) v)
    ]

abbrev pub Emptied : Option Entity → Type 0
Emptied none = ⊥
Emptied (some q) = Holds n_bytes q []

empty_rounds-Emptied :
    (n : ℕ) (sdus : List (List ℕ)) (q : Entity)
    → Holds n_bytes q sdus
    → n ≡ length sdus
    → Emptied (empty_rounds n q)
unfolding empty_rounds
empty_rounds-Emptied zero [] q v e = v
empty_rounds-Emptied zero (sdu ∷ sdus) q v e = absurd (omega arith)
empty_rounds-Emptied (suc n) [] q v e = absurd (omega arith)
empty_rounds-Emptied (suc n) (sdu ∷ sdus) q v e =
    next (MsgQueue.read n_bytes q) (read_refines n_bytes n_bytes_wide q (sdu ∷ sdus) v)
      (λ q' v'. empty_rounds-Emptied n sdus q' v' (omega arith))
  where
    next :
        (o : Option (List ℕ × Entity))
        → Taken n_bytes o (some (sdu, sdus))
        → ((q' : Entity) → Holds n_bytes q' sdus → Emptied (empty_rounds n q'))
        → Emptied (elim o [ none ↦ none | some (x, q') ↦ empty_rounds n q' ])
    next none t rest = absurd t
    next (some (x, q')) t rest = rest q' t.1

-- From a valid queue, empty_queue does not wait, and it leaves a valid queue with no SDU.
pub empty_queue-Emptied :
    (sdus : List (List ℕ)) (q : Entity) → Holds n_bytes q sdus → Emptied (empty_queue q)
unfolding empty_queue MsgQueue.size
empty_queue-Emptied sdus q v = empty_rounds-Emptied q.unread sdus q v v.counted
