-- ===== src/Mac/Pdu/Buffer.antt =====
-- Writing inside the transmit buffer.
use srs_ue.Prelude.{
  ℕ, ◌+◌, ◌-◌, ◌≤◌, ◌≡◌, sym, ap, ◌∙◌, List, ◌++◌, append_assoc, length, length-append,
  length-replicate, length-take, length-drop, take, drop, take_all, take-append, drop-append,
  take-append-drop, replicate, arith,
}
use srs_ue.Mac.Pdu.Packet.{write_at}

pub take_of : (n : ℕ) (xs ys : List ℕ) → n ≡ length xs → take n (xs ++ ys) ≡ xs
take_of n xs ys e = ap (λ (k : ℕ). take k (xs ++ ys)) e ∙ take-append xs ys

pub drop_of : (n : ℕ) (xs ys : List ℕ) → n ≡ length xs → drop n (xs ++ ys) ≡ ys
drop_of n xs ys e = ap (λ (k : ℕ). drop k (xs ++ ys)) e ∙ drop-append xs ys

-- Bytes over as many bytes.
pub write_at_lem :
    (off : ℕ) (a b c bytes : List ℕ)
    → off ≡ length a
    → length b ≡ length bytes
    → write_at off bytes (a ++ (b ++ c)) ≡ a ++ (bytes ++ c)
write_at_lem off a b c bytes e h =
    let buffer = a ++ (b ++ c) in
    let front : take off buffer ≡ a = take_of off a (b ++ c) e in
    let back : drop (off + length bytes) buffer ≡ c =
      ap (drop (off + length bytes)) (sym (append_assoc a b c))
      ∙ drop_of (off + length bytes) (a ++ b) c (omega (arith, length-append a b)) in
    let size : length buffer ≡ length (a ++ (bytes ++ c)) = omega (
      arith,
      length-append a (b ++ c),
      length-append b c,
      length-append a (bytes ++ c),
      length-append bytes c,
    ) in
    rw (front, back, size) (take_all (a ++ (bytes ++ c)))

-- The two writes of `write_packet` around the SDUs' payloads, and the packet that is cut out.
pub write_around :
    (start len rem : ℕ) (f p b front : List ℕ)
    → start + length front ≡ length f
    → len ≡ length front + length p + rem
    → rem ≤ length b
    → take len (
        drop start
          (write_at (start + (len - rem)) (replicate rem 0) (write_at start front (f ++ (p ++ b)))))
      ≡ front ++ (p ++ replicate rem 0)
write_around start len rem f p b front hf hl hb =
    let f1 = take start f in
    let f2 = drop start f in
    let b1 = take rem b in
    let b2 = drop rem b in
    let zeros : List ℕ = replicate rem 0 in
    let size_f1 : start ≡ length f1 = sym (length-take start f (omega arith)) in
    let size_f2 : length f2 ≡ length front = omega (arith, length-drop start f) in
    let size_b1 : length b1 ≡ length zeros = length-take rem b hb ∙ sym (length-replicate rem 0) in
    let cut_f : f ++ (p ++ b) ≡ f1 ++ (f2 ++ (p ++ b)) =
      ap (λ (l : List ℕ). l ++ (p ++ b)) (sym (take-append-drop start f))
      ∙ append_assoc f1 f2 (p ++ b) in
    let once : write_at start front (f ++ (p ++ b)) ≡ f1 ++ (front ++ (p ++ b)) =
      ap (write_at start front) cut_f ∙ write_at_lem start f1 f2 (p ++ b) front size_f1 size_f2 in
    let a = f1 ++ (front ++ p) in
    let cut_b : f1 ++ (front ++ (p ++ b)) ≡ a ++ (b1 ++ b2) =
      rw (take-append-drop rem b) (simp (append_assoc)) in
    let size_a : start + (len - rem) ≡ length a =
      omega (arith, length-append f1 (front ++ p), length-append front p) in
    let twice : write_at (start + (len - rem)) zeros (f1 ++ (front ++ (p ++ b)))
        ≡ a ++ (zeros ++ b2) =
      ap (write_at (start + (len - rem)) zeros) cut_b
      ∙ write_at_lem (start + (len - rem)) a b1 b2 zeros size_a size_b1 in
    let packet = front ++ (p ++ zeros) in
    let regroup : a ++ (zeros ++ b2) ≡ f1 ++ (packet ++ b2) = simp (append_assoc) in
    let size : len ≡ length packet = omega (
      arith,
      length-append front (p ++ zeros),
      length-append p zeros,
      length-replicate {A = ℕ} rem 0,
    ) in
    ap (λ (l : List ℕ). take len (drop start (write_at (start + (len - rem)) zeros l))) once
    ∙ ap (λ (l : List ℕ). take len (drop start l)) (twice ∙ regroup)
    ∙ ap (take len) (drop_of start f1 (packet ++ b2) size_f1)
    ∙ take_of len packet b2 size
