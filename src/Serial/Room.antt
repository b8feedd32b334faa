-- ===== src/Serial/Room.antt =====
-- The buffer of `add_variadic` in Shared/serial.c: it is grown before each write.
use tp_2017_2c_yatpos.Base.{
  ℕ, zero, suc, ◌+◌, ◌*◌, ◌≤◌, ◌<◌, ◌≡◌, sym, ap, ◌∙◌, ◌++◌, List, [], ◌∷◌, arith, length, leb,
  Bool-cases, inl, inr, ◌%◌, ◌^◌, length-append, append_assoc, append-nil,
}
use tp_2017_2c_yatpos.Serial.Words.{Bytes}
use tp_2017_2c_yatpos.Serial.{Value, Buffer, encode, grow, resize_buffer, write_value, write_values}

-- From a positive capacity, for at most 2 ^ 31 bytes, the doubling loop ends within `need` rounds, at
-- a capacity that is enough, and never wraps to 0.
pub grow-enough :
    (fuel need cap : ℕ)
    → 0 < cap
    → need ≤ fuel + cap
    → need ≤ 2 ^ 31
    → (need ≤ grow fuel need cap) × (0 < grow fuel need cap)
unfolding grow
grow-enough zero need cap p h small = omega arith
grow-enough (suc fuel) need cap p h small = elim (Bool-cases (leb need cap)) [
  | inl e ↦ rw (e, grow) (ground arith)
  | inr e ↦
      let less : cap < need = ground arith in
      let same : cap * 2 % 2 ^ 32 ≡ cap * 2 = omega arith in
      rw (e, grow) (rw same (grow-enough fuel need (cap * 2) (omega arith) (omega arith) small))
]

-- A buffer that has been allocated, and is not written past its end.
pub record InBounds (b : Buffer) : Type 0 where
  pub allocated : 0 < b.cap
  pub fits : length b.written ≤ b.cap

-- The bytes of a list of arguments, one after the other.
unfoldable pub encode_all : List Value → Bytes
encode_all [] = []
encode_all (v ∷ vs) = encode v ++ encode_all vs

pub write_value-InBounds :
    (b : Buffer) (v : Value)
    → InBounds b
    → length b.written + length (encode v) ≤ 2 ^ 31
    → InBounds (write_value b v)
unfolding write_value resize_buffer
write_value-InBounds b v k small = rw same (
    ground (
      arith,
      length-append b.written (encode v),
      grow-enough need need b.cap (omega (arith, k.allocated)),
    ))
  where
    need : ℕ
    need = length b.written + length (encode v)

    same :
        (length b.written + length (encode v) % 2 ^ 32) % 2 ^ 32
        ≡ length b.written + length (encode v)
    same = omega (arith, small)

write_value-encode : (b : Buffer) (v : Value) → (write_value b v).written ≡ b.written ++ encode v
unfolding write_value resize_buffer
write_value-encode b v = ground arith

pub write_values-encode_all :
    (b : Buffer) (vs : List Value) → (write_values b vs).written ≡ b.written ++ encode_all vs
unfolding write_values encode_all
write_values-encode_all b [] = sym (append-nil b.written)
write_values-encode_all b (v ∷ vs) =
    write_values-encode_all (write_value b v) vs
    ∙ ap (λ t. t ++ encode_all vs) (write_value-encode b v)
    ∙ append_assoc b.written (encode v) (encode_all vs)

-- The arguments are added, as long as what is written and what they take is at most 2 ^ 31 bytes: no
-- write goes past the memory allocated for the buffer, if what is already written fits it. The
-- doubling always makes room, though the sizes and the capacity are `size_t`s of 32 bits.
pub write_values-InBounds :
    (b : Buffer) (vs : List Value)
    → InBounds b
    → length b.written + length (encode_all vs) ≤ 2 ^ 31
    → InBounds (write_values b vs)
unfolding write_values encode_all
write_values-InBounds b [] k small = k
write_values-InBounds b (v ∷ vs) k small =
    let all = length-append (encode v) (encode_all vs) in
    let after = ap length (write_value-encode b v) ∙ length-append b.written (encode v) in
    write_values-InBounds (write_value b v) vs
      (write_value-InBounds b v k (omega (arith, small, all))) (omega (arith, small, all, after))
