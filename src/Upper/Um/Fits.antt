-- ===== src/Upper/Um/Fits.antt =====
-- What a PDU that is filled leaves, and that its header can be written.
use srs_ue.Prelude.{
  ℕ, ◌+◌, ◌≤◌, ◌<◌, ◌≡◌, ap, ◌∙◌, inl, inr, true, List, [], ◌∷◌, ◌++◌, Option, none, some, ltb,
  length, take, arith, length-append, length-take, length-drop, Bool-cases,
}
use srs_ue.Upper.Extension.Trip.{AllLi}
use srs_ue.Upper.UmHeader.{SnSize, fixed_length}
use srs_ue.Upper.Um.Send.{
  Filling, part_of, to_move, remainder, move_sdu, with_last, pull_sdus, no_filling, start_filling,
  fill_pdu, head_length,
}
use srs_ue.Upper.Um.Joined.{sum, joined, sum-append, take-remainder, AllFull, pull_sdus-joined}

-- An SDU, or a rest of one: not empty, and short enough for a length indicator.
abbrev pub IsSdu : List ℕ → Type 0
IsSdu s = (0 < length s) × (length s < 2048)

abbrev pub AllSdus : List (List ℕ) → Type 0
AllSdus [] = Unit
AllSdus (s ∷ q) = IsSdu s × AllSdus q

abbrev pub IsPart : Option (List ℕ) → Type 0
IsPart none = Unit
IsPart (some s) = IsSdu s

AllSdus-AllFull : (q : List (List ℕ)) → AllSdus q → AllFull q
AllSdus-AllFull [] a = tt
AllSdus-AllFull (s ∷ q) a = (a.0.0, AllSdus-AllFull q a.1)

AllLi-append : (li : List ℕ) (n : ℕ) → AllLi li → n < 2048 → AllLi (li ++ n ∷ [])
AllLi-append [] n a h = (h, tt)
AllLi-append (l ∷ li) n a h = (a.0, AllLi-append li n a.1 h)

IsPart-remainder : (n : ℕ) (s : List ℕ) → n ≤ length s → IsSdu s → IsPart (remainder n s)
IsPart-remainder n s h a = ground (arith, length-drop n s)

-- What the header and the next PDU need.
abbrev pub Fits : Filling → Type 0
Fits f =
    AllLi f.li
    × (f.last_li < 2048)
    × (sum f.li + f.last_li ≡ length f.bytes)
    × IsPart f.sdu
    × AllSdus f.queue

move_sdu-Fits :
    (size : SnSize) (s : List ℕ) (q : List (List ℕ)) (f : Filling)
    → IsSdu s
    → AllSdus q
    → Fits f
    → Fits (record (move_sdu (head_length size (with_last f)) s (record f { li = with_last f })) {
      queue = q;
    })
unfolding move_sdu
move_sdu-Fits size s q f a b c =
    let n = to_move f.pdu_space (head_length size (with_last f)) (length s) in
    let within : n ≤ length s = ground arith in
    (
      ground (arith, AllLi-append f.li f.last_li c.0),
      ground arith,
      ground (
        arith,
        sum-append f.li f.last_li,
        length-append f.bytes (take n s),
        length-take n s within,
      ),
      IsPart-remainder n s within a,
      b,
    )

pull_sdus-Fits :
    (size : SnSize) (head : ℕ) (q : List (List ℕ)) (f : Filling)
    → AllSdus q
    → Fits (record f { queue = q })
    → Fits (pull_sdus size head q f)
unfolding pull_sdus
pull_sdus-Fits size head [] f a c = c
pull_sdus-Fits size head (s ∷ q) f a c = elim (Bool-cases (ltb head f.pdu_space)) [
  | inl more ↦
      let head' = head_length size (with_last f) in
      rw more (
        pull_sdus-Fits size head' q (move_sdu head' s (record f { li = with_last f })) a.1
          (move_sdu-Fits size s q (record f { queue = q }) a.0 a.1 (c.0, c.1, c.2, c.3, a.1)))
  | inr done ↦ rw done c
]

-- What an entity still has to send, when the other side holds the front `x` of the first SDU.
abbrev pub pending : List ℕ → Option (List ℕ) → List (List ℕ) → List (List ℕ)
pending x none q = q
pending x (some s) q = (x ++ s) ∷ q

pub fill_pdu-Fits :
    (n : ℕ) (size : SnSize) (o : Option (List ℕ)) (q : List (List ℕ))
    → fixed_length size < n
    → IsPart o
    → AllSdus q
    → Fits (fill_pdu n size o q)
unfolding fill_pdu start_filling move_sdu
fill_pdu-Fits n size none q h v a =
    pull_sdus-Fits size (fixed_length size) q (no_filling n q) a
      (tt, omega arith, omega arith, tt, a)
fill_pdu-Fits n size (some s) q h v a =
    let m = to_move n (fixed_length size) (length s) in
    let within : m ≤ length s = ground arith in
    pull_sdus-Fits size (fixed_length size) q (move_sdu (fixed_length size) s (no_filling n q)) a
      (tt, omega arith, omega (arith, length-take m s within), IsPart-remainder m s within v, a)

-- The other side holds nothing of an SDU of which nothing was sent.
abbrev pub Continues : Option (List ℕ) → List ℕ → Type 0
Continues none x = x ≡ []
Continues (some s) x = Unit

-- There is something to send.
abbrev pub HasData : Option (List ℕ) → List (List ℕ) → Type 0
HasData none [] = ⊥
HasData none (s ∷ q) = Unit
HasData (some s) q = Unit

pub fill_pdu-joined :
    (n : ℕ) (size : SnSize) (x : List ℕ) (o : Option (List ℕ)) (q : List (List ℕ))
    → fixed_length size < n
    → IsPart o
    → AllSdus q
    → HasData o q
    → Continues o x
    → let f = fill_pdu n size o q in
      joined x f.li f.bytes (part_of f.sdu) ++ f.queue ≡ pending x o q
unfolding fill_pdu start_filling move_sdu
fill_pdu-joined n size x none [] h v a d c = absurd d
fill_pdu-joined n size x none (s ∷ q) h v a d c =
    let head = head_length size [] in
    let more : ltb (fixed_length size) n ≡ true = ground arith in
    let m = to_move n head (length s) in
    let within : m ≤ length s = ground arith in
    rw (more, c)
      (pull_sdus-joined size head [] q (move_sdu head s (no_filling n (s ∷ q)))
          (omega (arith, length-take m s within), ground arith) (AllSdus-AllFull q a.1)
        ∙ ap (λ (t : List ℕ). t ∷ q) (take-remainder m s within))
fill_pdu-joined n size x (some s) q h v a d c =
    let m = to_move n (fixed_length size) (length s) in
    let within : m ≤ length s = ground arith in
    pull_sdus-joined size (fixed_length size) x q (move_sdu (fixed_length size) s (no_filling n q))
      (omega (arith, length-take m s within), ground arith) (AllSdus-AllFull q a)
    ∙ ap (λ (t : List ℕ). (x ++ t) ∷ q) (take-remainder m s within)
