-- ===== src/Upper/Um/Joined.antt =====
-- The SDUs that a PDU's bytes and length indicators stand for, and that sending cuts them so.
use srs_ue.Prelude.{
  ℕ, ◌+◌, ◌-◌, ◌≤◌, ◌<◌, ◌≡◌, refl, sym, ap, ◌∙◌, ◌⊎◌, inl, inr, List, [], ◌∷◌, ◌++◌, append-nil,
  append_assoc, Option, none, ltb, length, take, drop, arith, length-append, take-append,
  drop-append, take-append_front, drop-append_front, take-append-drop, take_all, length-take,
  length-drop, Bool-cases,
}
use srs_ue.Upper.UmHeader.{SnSize}
use srs_ue.Upper.Um.Send.{
  Filling, part_of, to_move, remainder, move_sdu, with_last, pull_sdus, head_length,
}

abbrev pub sum : List ℕ → ℕ
sum [] = 0
sum (x ∷ xs) = x + sum xs

-- The SDUs of a PDU whose first one began with `x`, and whose last one goes on with `rest`.
abbrev pub joined : List ℕ → List ℕ → List ℕ → List ℕ → List (List ℕ)
joined x [] bytes rest = (x ++ (bytes ++ rest)) ∷ []
joined x (l ∷ li) bytes rest = (x ++ take l bytes) ∷ joined [] li (drop l bytes) rest

pub sum-append : (xs : List ℕ) (n : ℕ) → sum (xs ++ n ∷ []) ≡ sum xs + n
sum-append [] n = omega arith
sum-append (x ∷ xs) n = omega (arith, sum-append xs n)

-- One more segment, where the indicators so far and `last` measure all the bytes.
joined-append :
    (x li bytes : List ℕ) (last : ℕ) (more rest : List ℕ)
    → sum li + last ≡ length bytes
    → joined x (li ++ last ∷ []) (bytes ++ more) rest ≡ joined x li bytes [] ++ (more ++ rest) ∷ []
joined-append x [] bytes last more rest h =
    let same : last ≡ length bytes = omega arith in
    rw (same, take-append bytes more, drop-append bytes more, joined, append-nil bytes) refl
joined-append x (l ∷ li) bytes last more rest h =
    rw
      (
        take-append_front l bytes more (omega arith),
        drop-append_front l bytes more (omega arith),
        joined-append [] li (drop l bytes) last more rest (omega (arith, length-drop l bytes)),
      )
      refl

-- What is moved and what is left make up the SDU.
pub take-remainder : (n : ℕ) (s : List ℕ) → n ≤ length s → take n s ++ part_of (remainder n s) ≡ s
take-remainder n s h = ground (arith, take-append-drop n s, take_all s, append-nil s)

-- A segment of `n` bytes leaves nothing, or fills the space.
to_move_cases :
    (space head n : ℕ)
    → head ≤ space ⊎ space < head
    → (to_move space head n ≤ n)
      × ((to_move space head n ≡ n) ⊎ (space - to_move space head n ≤ head))
to_move_cases space head n h = ground arith

-- Between two rounds: the indicators and the last segment measure the bytes, and either the SDU is
-- whole in the PDU, or no space is left.
abbrev IsCut : ℕ → Filling → Type 0
IsCut head f =
    (sum f.li + f.last_li ≡ length f.bytes)
    × (((f.sdu ≡ none) × (0 < f.last_li)) ⊎ (f.pdu_space ≤ head))

abbrev pub AllFull : List (List ℕ) → Type 0
AllFull [] = Unit
AllFull (s ∷ q) = (0 < length s) × AllFull q

-- A new round for an SDU that is not empty, after one that left space.
move_sdu-IsCut :
    (size : SnSize) (s : List ℕ) (f : Filling)
    → 0 < length s
    → sum f.li + f.last_li ≡ length f.bytes
    → 0 < f.last_li
    → IsCut
        (head_length size (with_last f))
        (move_sdu (head_length size (with_last f)) s (record f { li = with_last f }))
unfolding move_sdu
move_sdu-IsCut size s f h c l =
    let head = head_length size (with_last f) in
    let n = to_move f.pdu_space head (length s) in
    let within : n ≤ length s = ground arith in
    (
      ground (
        arith,
        sum-append f.li f.last_li,
        length-append f.bytes (take n s),
        length-take n s within,
      ),
      ground arith,
    )

move_sdu-joined :
    (size : SnSize) (x s : List ℕ) (f : Filling)
    → sum f.li + f.last_li ≡ length f.bytes
    → 0 < f.last_li
    → let f' = move_sdu (head_length size (with_last f)) s (record f { li = with_last f }) in
      joined x f'.li f'.bytes (part_of f'.sdu) ≡ joined x f.li f.bytes [] ++ s ∷ []
unfolding move_sdu
move_sdu-joined size x s f c l =
    let n' = to_move f.pdu_space (head_length size (f.li ++ f.last_li ∷ [])) (length s) in
    let pushed : with_last f ≡ f.li ++ f.last_li ∷ [] = ground arith in
    rw pushed (
      joined-append x f.li f.bytes f.last_li (take n' s) (part_of (remainder n' s)) c
      ∙ ap (λ (t : List ℕ). joined x f.li f.bytes [] ++ t ∷ [])
          (take-remainder n' s (ground arith)))

-- The loop loses nothing: what the PDU, the rest of its last SDU and the queue stand for stays.
pub pull_sdus-joined :
    (size : SnSize) (head : ℕ) (x : List ℕ) (q : List (List ℕ)) (f : Filling)
    → IsCut head f
    → AllFull q
    → let f' = pull_sdus size head q f in
      joined x f'.li f'.bytes (part_of f'.sdu) ++ f'.queue
      ≡ joined x f.li f.bytes (part_of f.sdu) ++ q
unfolding pull_sdus
pull_sdus-joined size head x [] f c a = refl
pull_sdus-joined size head x (s ∷ q) f c a = elim (Bool-cases (ltb head f.pdu_space)) [
  | inl more ↦
      let last : 0 < f.last_li = ground arith in
      let whole : f.sdu ≡ none = ground arith in
      let head' = head_length size (with_last f) in
      let f' = move_sdu head' s (record f { li = with_last f }) in
      rw more (
        pull_sdus-joined size head' x q f' (move_sdu-IsCut size s f a.0 c.0 last) a.1
        ∙ ap (λ (t : List (List ℕ)). t ++ q) (move_sdu-joined size x s f c.0 last)
        ∙ append_assoc (joined x f.li f.bytes []) (s ∷ []) q
        ∙ ap (λ (t : Option (List ℕ)). joined x f.li f.bytes (part_of t) ++ s ∷ q) (sym whole))
  | inr done ↦ rw done refl
]
