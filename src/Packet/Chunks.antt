-- ===== src/Packet/Chunks.antt =====
-- input() does not depend on how the bytes are cut into reads of the socket.
use mathlib.Core.List.{append_assoc}
use buildat.Base.{
  ℕ, zero, suc, ◌+◌, ◌≤◌, ◌<◌, ◌≡◌, ◌≢◌, refl, sym, ap, ◌∙◌, List, [], ◌∷◌, ◌++◌, arith, length,
  take, drop, length-append, length-drop, get_or, take-append_le, drop-append_le, get_or-append_lt,
  ◌⊎◌, inl, inr,
}
use buildat.Base.Keys.{Bytes}
use buildat.Packet.Registry.{size_mod, Incoming, Stop, returned, out_of_fuel}
use buildat.Packet.Wire.{read_type, read_size}
use buildat.Packet.Input.{
  Round, halt, go, define_type, handle_packet, round, Read, deliver, input_rounds, input,
}

pub Round-cases :
    (r : Round)
    → ((s : Stop) × (b : Bytes) × (r ≡ halt s b))
      ⊎ ((i : Incoming) × (b : Bytes) × (ps : List (Bytes × Bytes)) × (r ≡ go i b ps))
Round-cases (halt s b) = inl (s, b, refl)
Round-cases (go i b ps) = inr (i, b, ps, refl)

-- What handle_packet leaves in the buffer is what it was given.
handle_packet-buffer :
    (i j : Incoming) (type : ℕ) (p a r : Bytes) (ps : List (Bytes × Bytes))
    → handle_packet i type p a ≡ go j r ps
    → r ≡ a
unfolding handle_packet define_type
handle_packet-buffer i j type p a r ps h = ground arith

handle_packet-append :
    (i j : Incoming) (type : ℕ) (p a b r : Bytes) (ps : List (Bytes × Bytes))
    → handle_packet i type p a ≡ go j r ps
    → handle_packet i type p (a ++ b) ≡ go j (r ++ b) ps
unfolding handle_packet define_type
handle_packet-append i j type p a b r ps h = ground arith

handle_packet-ne-returned :
    (i : Incoming) (type : ℕ) (p a r : Bytes) (s : Stop)
    → handle_packet i type p a ≡ halt s r
    → s ≢ returned
unfolding handle_packet define_type
handle_packet-ne-returned i type p a r s h e = ground arith

handle_packet-ne-out_of_fuel :
    (i : Incoming) (type : ℕ) (p a r : Bytes) (s : Stop)
    → handle_packet i type p a ≡ halt s r
    → s ≢ out_of_fuel
unfolding handle_packet define_type
handle_packet-ne-out_of_fuel i type p a r s h e = ground arith

abbrev type_at : Bytes → ℕ
type_at a = read_type (get_or a 0 0) (get_or a 1 0)

abbrev size_at : Bytes → ℕ
size_at a = read_size (get_or a 2 0) (get_or a 3 0) (get_or a 4 0) (get_or a 5 0)

size_at-lt : (a : Bytes) → size_at a < size_mod
unfolding read_size
size_at-lt a = ground arith

-- A round that goes on has a whole packet before it.
round_go :
    (i j : Incoming) (a r : Bytes) (ps : List (Bytes × Bytes))
    → round i a ≡ go j r ps
    → (6 + size_at a ≤ length a)
      × (handle_packet i (type_at a) (take (size_at a) (drop 6 a)) (drop (6 + size_at a) a)
          ≡ go j r ps)
unfolding round
round_go i j a r ps h = ground (arith, size_at-lt a)

pub round_shrinks :
    (i j : Incoming) (a r : Bytes) (ps : List (Bytes × Bytes))
    → round i a ≡ go j r ps
    → length r + 6 ≤ length a
round_shrinks i j a r ps h =
    let (fits, e) = round_go i j a r ps h in
    omega (arith, ap length (handle_packet-buffer i j _ _ _ r ps e), length-drop (6 + size_at a) a)

round-append :
    (i j : Incoming) (a b r : Bytes) (ps : List (Bytes × Bytes))
    → round i a ≡ go j r ps
    → round i (a ++ b) ≡ go j (r ++ b) ps
unfolding round
round-append i j a b r ps h =
    let (fits, e) = round_go i j a r ps h in
    ground (
      arith,
      size_at-lt a,
      length-append a b,
      get_or-append_lt a b 0 0,
      get_or-append_lt a b 1 0,
      get_or-append_lt a b 2 0,
      get_or-append_lt a b 3 0,
      get_or-append_lt a b 4 0,
      get_or-append_lt a b 5 0,
      drop-append_le 6 a b,
      drop-append_le (6 + size_at a) a b,
      take-append_le (size_at a) (drop 6 a) b,
      length-drop 6 a,
      handle_packet-append i j (type_at a) (take (size_at a) (drop 6 a)) (drop (6 + size_at a) a) b
          r ps e,
    )

-- A round that returns leaves the buffer alone.
pub round_returned : (i : Incoming) (a r : Bytes) → round i a ≡ halt returned r → r ≡ a
unfolding round
round_returned i a r h = ground (
  arith,
  handle_packet-ne-returned i (type_at a) (take (size_at a) (drop 6 a)) (drop (6 + size_at a) a) r
      returned,
)

handle_packet_halt-append :
    (i : Incoming) (type : ℕ) (p a b r : Bytes) (s : Stop)
    → handle_packet i type p a ≡ halt s r
    → handle_packet i type p (a ++ b) ≡ halt s (r ++ b)
unfolding handle_packet define_type
handle_packet_halt-append i type p a b r s h = ground arith

round_halt-append :
    (i : Incoming) (a b r : Bytes) (s : Stop)
    → round i a ≡ halt s r
    → s ≢ returned
    → round i (a ++ b) ≡ halt s (r ++ b)
unfolding round
round_halt-append i a b r s h ne = ground (
  arith,
  size_at-lt a,
  length-append a b,
  get_or-append_lt a b 0 0,
  get_or-append_lt a b 1 0,
  get_or-append_lt a b 2 0,
  get_or-append_lt a b 3 0,
  get_or-append_lt a b 4 0,
  get_or-append_lt a b 5 0,
  drop-append_le 6 a b,
  drop-append_le (6 + size_at a) a b,
  take-append_le (size_at a) (drop 6 a) b,
  length-drop 6 a,
  handle_packet_halt-append i (type_at a) (take (size_at a) (drop 6 a)) (drop (6 + size_at a) a) b r
      s,
)

round-ne-out_of_fuel :
    (i : Incoming) (a r : Bytes) (s : Stop) → round i a ≡ halt s r → s ≢ out_of_fuel
unfolding round
round-ne-out_of_fuel i a r s h e = ground (
  arith,
  handle_packet-ne-out_of_fuel i (type_at a) (take (size_at a) (drop 6 a)) (drop (6 + size_at a) a)
      r s,
)

abbrev pub halted : Stop → Incoming → Bytes → Read
halted s i a = record { incoming = i; buffer = a; delivered = []; stop = s }

pub input_rounds-halt :
    (f : ℕ) (i : Incoming) (a c : Bytes) (s : Stop)
    → round i a ≡ halt s c
    → input_rounds (suc f) i a ≡ halted s i c
unfolding input_rounds
input_rounds-halt f i a c s e = rw (e, input_rounds)

pub input_rounds-go :
    (f : ℕ) (i j : Incoming) (a c : Bytes) (ps : List (Bytes × Bytes))
    → round i a ≡ go j c ps
    → input_rounds (suc f) i a ≡ deliver ps (input_rounds f j c)
unfolding input_rounds
input_rounds-go f i j a c ps e = rw (e, input_rounds)

-- More fuel than bytes changes nothing.
pub input_rounds-fuel :
    (f g : ℕ) (i : Incoming) (a : Bytes)
    → length a < f
    → length a < g
    → input_rounds f i a ≡ input_rounds g i a
input_rounds-fuel zero g i a hf hg = absurd (omega arith)
input_rounds-fuel (suc f) zero i a hf hg = absurd (omega arith)
input_rounds-fuel (suc f) (suc g) i a hf hg = elim (Round-cases (round i a)) [
  | inl (s, b, e) ↦ rw (input_rounds-halt f i a b s e, input_rounds-halt g i a b s e)
  | inr (j, b, ps, e) ↦
      let shorter = round_shrinks i j a b ps e in
      rw (input_rounds-go f i j a b ps e, input_rounds-go g i j a b ps e)
        (ap (deliver ps) (input_rounds-fuel f g j b (omega arith) (omega arith)))
]

input_rounds-total :
    (f : ℕ) (i : Incoming) (a : Bytes) → length a < f → (input_rounds f i a).stop ≢ out_of_fuel
unfolding input_rounds
input_rounds-total zero i a h = absurd (omega arith)
input_rounds-total (suc f) i a h = elim (Round-cases (round i a)) [
  | inl (s, b, e) ↦ rw (input_rounds-halt f i a b s e) (round-ne-out_of_fuel i a b s e)
  | inr (j, b, ps, e) ↦
      let shorter = round_shrinks i j a b ps e in
      rw (input_rounds-go f i j a b ps e) (input_rounds-total f j b (omega arith))
]

-- input() ends on every buffer and every registry: its fuel, one more than the buffer's bytes, is
-- never used up.
pub input-total : (i : Incoming) (a : Bytes) → (input i a).stop ≢ out_of_fuel
unfolding input
input-total i a = input_rounds-total (suc (length a)) i a (omega arith)

input_rounds-append :
    (f g k : ℕ) (i : Incoming) (a b : Bytes)
    → length a < f
    → length (a ++ b) < g
    → length (a ++ b) < k
    → (input_rounds f i a).stop ≡ returned
    → input_rounds g i (a ++ b)
      ≡ deliver
          (input_rounds f i a).delivered
          (input_rounds k (input_rounds f i a).incoming ((input_rounds f i a).buffer ++ b))
unfolding input_rounds
input_rounds-append zero g k i a b hf hg hk r = absurd (omega arith)
input_rounds-append (suc f) zero k i a b hf hg hk r = absurd (omega arith)
input_rounds-append (suc f) (suc g) k i a b hf hg hk r = elim (Round-cases (round i a)) [
  | inl (s, c, e) ↦
      let halts = input_rounds-halt f i a c s e in
      let is_returned : s ≡ returned = sym (ap (λ x. x.stop) halts) ∙ r in
      let same = round_returned i a c (e ∙ ap (λ x. halt x c) is_returned) in
      rw (halts, same) (input_rounds-fuel (suc g) k i (a ++ b) hg hk)
  | inr (j, c, ps, e) ↦
      let goes = input_rounds-go f i j a c ps e in
      let shorter = round_shrinks i j a c ps e in
      let rest_returned : (input_rounds f j c).stop ≡ returned = sym (ap (λ x. x.stop) goes) ∙ r in
      let ih =
        input_rounds-append f g k j c b (omega arith)
          (omega (arith, length-append a b, length-append c b))
          (omega (arith, length-append a b, length-append c b)) rest_returned in
      rw (goes, input_rounds-go g i j (a ++ b) (c ++ b) ps (round-append i j a b c ps e), ih)
        (simp append_assoc)
]

-- If input() returns from the bytes `a`, then `a` and `b` in one buffer are read as `a`, and then
-- what it left followed by `b`: the same packets in the same order, the same registry, the same
-- rest and the same end.
pub input-append :
    (i : Incoming) (a b : Bytes)
    → (input i a).stop ≡ returned
    → input i (a ++ b)
      ≡ deliver (input i a).delivered (input (input i a).incoming ((input i a).buffer ++ b))
unfolding input
input-append i a b r =
    let left = (input i a).buffer ++ b in
    let enough = suc (length (a ++ b) + length left) in
    input_rounds-append (suc (length a)) (suc (length (a ++ b))) enough i a b (omega arith)
      (omega arith) (omega arith) r
    ∙ ap (deliver (input i a).delivered) (
        input_rounds-fuel enough (suc (length left)) (input i a).incoming left (omega arith)
          (omega arith))

input_rounds_stop-append :
    (f g : ℕ) (i : Incoming) (a b : Bytes)
    → length a < f
    → length (a ++ b) < g
    → (input_rounds f i a).stop ≢ returned
    → (input_rounds g i (a ++ b)).stop ≡ (input_rounds f i a).stop
input_rounds_stop-append zero g i a b hf hg r = absurd (omega arith)
input_rounds_stop-append (suc f) zero i a b hf hg r = absurd (omega arith)
input_rounds_stop-append (suc f) (suc g) i a b hf hg r = elim (Round-cases (round i a)) [
  | inl (s, c, e) ↦
      let halts = input_rounds-halt f i a c s e in
      let ne : s ≢ returned = λ x. r (ap (λ y. y.stop) halts ∙ x) in
      rw (halts, input_rounds-halt g i (a ++ b) (c ++ b) s (round_halt-append i a b c s e ne)) refl
  | inr (j, c, ps, e) ↦
      let goes = input_rounds-go f i j a c ps e in
      let shorter = round_shrinks i j a c ps e in
      rw (goes, input_rounds-go g i j (a ++ b) (c ++ b) ps (round-append i j a b c ps e))
        (input_rounds_stop-append f g j c b (omega arith)
          (omega (arith, length-append a b, length-append c b))
          (λ x. r (ap (λ y. y.stop) goes ∙ x)))
]

-- If input() does not return from `a`, then more bytes behind `a` do not change how it ends.
pub input_stop-append :
    (i : Incoming) (a b : Bytes)
    → (input i a).stop ≢ returned
    → (input i (a ++ b)).stop ≡ (input i a).stop
unfolding input
input_stop-append i a b r =
    input_rounds_stop-append (suc (length a)) (suc (length (a ++ b))) i a b (omega arith)
      (omega arith) r

-- The bytes arrive in pieces: each is put behind what is left, and input() is called.
unfoldable pub feed : Incoming → Bytes → List Bytes → Read
feed i buffer [] = halted returned i buffer
feed i buffer (c ∷ cs) =
    let r = input i (buffer ++ c) in
    let rest = feed r.incoming r.buffer cs in
    elim r.stop [ returned ↦ deliver r.delivered rest | _ ↦ r ]
