-- ===== src/Packet/Feed.antt =====
-- Bytes that arrive in pieces.
use mathlib.Core.List.{append-nil, append_assoc}
use buildat.Base.{
  ℕ, zero, suc, ◌≡◌, ◌≢◌, refl, sym, ap, ◌∙◌, List, [], ◌∷◌, ◌++◌, arith, ◌⊎◌, inl, inr, length,
  flatten, ◌<◌,
}
use buildat.Base.Keys.{Bytes}
use buildat.Packet.Registry.{
  PacketStream, Incoming, Stop, returned, unknown_packet, fault, out_of_fuel,
}
use buildat.Packet.Input.{halt, round, deliver, input_rounds, input}
use buildat.Packet.Chunks.{
  Round-cases, feed, round_returned, input_rounds-halt, input_rounds-go, round_shrinks,
  input-append, input_stop-append,
}
use buildat.Packet.Sender.{IsSender}
use buildat.Packet.RoundTrip.{IsSynced, Fits, send_all, send_all-input}

returned-cases : (s : Stop) → (s ≡ returned) ⊎ (s ≢ returned)
returned-cases returned = inl refl
returned-cases unknown_packet = inr (λ e. cc)
returned-cases fault = inr (λ e. cc)
returned-cases out_of_fuel = inr (λ e. cc)

-- No whole packet is in the buffer.
abbrev IsDrained : Incoming → Bytes → Type 0
IsDrained i buffer = round i buffer ≡ halt returned buffer

input_rounds-IsDrained :
    (f : ℕ) (i : Incoming) (a : Bytes)
    → length a < f
    → (input_rounds f i a).stop ≡ returned
    → IsDrained (input_rounds f i a).incoming (input_rounds f i a).buffer
input_rounds-IsDrained zero i a h r = absurd (omega arith)
input_rounds-IsDrained (suc f) i a h r = elim (Round-cases (round i a)) [
  | inl (s, c, e) ↦
      let halts = input_rounds-halt f i a c s e in
      let is_returned : s ≡ returned = sym (ap (λ x. x.stop) halts) ∙ r in
      let e' = e ∙ ap (λ x. halt x c) is_returned in
      let same = round_returned i a c e' in rw halts (rw same (e' ∙ ap (halt returned) same))
  | inr (j, c, ps, e) ↦
      let goes = input_rounds-go f i j a c ps e in
      let shorter = round_shrinks i j a c ps e in
      rw goes (input_rounds-IsDrained f j c (omega arith) (sym (ap (λ x. x.stop) goes) ∙ r))
]

input-IsDrained :
    (i : Incoming) (a : Bytes)
    → (input i a).stop ≡ returned
    → IsDrained (input i a).incoming (input i a).buffer
unfolding input
input-IsDrained i a r = input_rounds-IsDrained (suc (length a)) i a (omega arith) r

pub feed_step :
    (i : Incoming) (buffer c : Bytes) (cs : List Bytes)
    → (input i (buffer ++ c)).stop ≡ returned
    → feed i buffer (c ∷ cs)
      ≡ deliver
          (input i (buffer ++ c)).delivered
          (feed (input i (buffer ++ c)).incoming (input i (buffer ++ c)).buffer cs)
unfolding feed
feed_step i buffer c cs e = rw (e, feed)

feed_from :
    (cs : List Bytes) (i : Incoming) (buffer : Bytes)
    → IsDrained i buffer
    → (input i (buffer ++ flatten cs)).stop ≡ returned
    → feed i buffer cs ≡ input i (buffer ++ flatten cs)
feed_from [] i buffer d r =
    unfold input feed in
    rw append-nil (sym (input_rounds-halt (length buffer) i buffer buffer returned d))
feed_from (c ∷ cs) i buffer d r =
    let first = input i (buffer ++ c) in
    let regroup = append_assoc buffer c (flatten cs) in
    elim (returned-cases first.stop) [
      | inl e ↦
          let whole = input-append i (buffer ++ c) (flatten cs) e in
          let r' =
            sym (ap (λ x. x.stop) whole) ∙ ap (λ (a : Bytes). (input i a).stop) regroup ∙ r in
          feed_step i buffer c cs e
          ∙ ap (deliver first.delivered)
              (feed_from cs first.incoming first.buffer (input-IsDrained i (buffer ++ c) e) r')
          ∙ sym whole
          ∙ ap (input i) regroup
      | inr ne ↦ absurd (
          ne (
            sym (input_stop-append i (buffer ++ c) (flatten cs) ne)
            ∙ ap (λ (a : Bytes). (input i a).stop) regroup
            ∙ r))
    ]

-- However the bytes are cut into pieces on their way: if input() returns from all of them in one
-- buffer, then feeding the pieces one by one delivers the same packets and ends in the same state.
pub feed-input :
    (cs : List Bytes) (i : Incoming)
    → (input i (flatten cs)).stop ≡ returned
    → feed i [] cs ≡ input i (flatten cs)
feed-input cs i r = feed_from cs i [] (unfold round in refl) r

-- The round trip, for two sides that agree on the types, and for messages of which none has the
-- name of the type definitions, each name has fewer than 128 bytes and each data fewer than 2^31,
-- and each name has a type or finds one below 128 free: however the bytes of a series of calls of
-- output() are cut into pieces, the other side, fed with the pieces, calls back with exactly the
-- messages of the series, in order, and input() returns.
pub send_all-feed :
    (ms : List (Bytes × Bytes)) (cs : List Bytes) (i : Incoming) (s : PacketStream)
    → IsSender s
    → IsSynced s i
    → Fits ms s
    → flatten cs ≡ (send_all ms s).1
    → (feed i [] cs).delivered ≡ ms × (feed i [] cs).stop ≡ returned
send_all-feed ms cs i s v y f e =
    let (all, end, left) = send_all-input ms i s v y f in
    let same = feed-input cs i (rw e end) in rw (same, e) (all, end)
