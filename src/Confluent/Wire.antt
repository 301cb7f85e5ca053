-- ===== src/Confluent/Wire.antt =====
-- Encoding and decoding the wire format.
use caminus.Prelude.{
  ℕ, ◌+◌, ◌*◌, ◌^◌, ◌<◌, ◌≡◌, ◌↔◌, ap, ◌∙◌, List, [], ◌∷◌, nat_eq, nat_eq_iff, ok, All, arith,
  Bool-cases, inl, inr,
}
use mathlib.Core.Path.{ap₂}
use caminus.Confluent.Defs.{encode_wire_format, decode_wire_format, to_be_bytes}

pub decode-encode :
    (id : ℕ) (payload : List ℕ)
    → id < 2 ^ 32
    → decode_wire_format (encode_wire_format id payload) ≡ ok (id, payload)
unfolding encode_wire_format decode_wire_format
decode-encode id payload small = ap (λ n. ok (n, payload)) (omega (arith, small))

abbrev of_bytes : ℕ → ℕ → ℕ → ℕ → ℕ
of_bytes a b c d = a * 2 ^ 24 + b * 2 ^ 16 + c * 2 ^ 8 + d

bytes-of_bytes :
    (a b c d : ℕ) (payload : List ℕ)
    → a < 256
    → b < 256
    → c < 256
    → d < 256
    → a ∷ b ∷ c ∷ d ∷ payload ≡ to_be_bytes (of_bytes a b c d) payload
bytes-of_bytes a b c d payload ha hb hc hd =
    ap₂ ◌∷◌ (omega arith)
      (ap₂ ◌∷◌ (omega arith) (ap₂ ◌∷◌ (omega arith) (ap (λ n. n ∷ payload) (omega arith))))

encode-decode :
    (buffer : List ℕ) (id : ℕ) (payload : List ℕ)
    → All (λ b. b < 256) buffer
    → decode_wire_format buffer ≡ ok (id, payload)
    → (id < 2 ^ 32) × (buffer ≡ encode_wire_format id payload)
unfolding encode_wire_format decode_wire_format
encode-decode (m ∷ a ∷ b ∷ c ∷ d ∷ rest) id payload bytes h = elim (Bool-cases (nat_eq m 0)) [
  | inl zero ↦
      let z : m ≡ 0 = (nat_eq_iff m 0).0 zero in
      let n : of_bytes a b c d ≡ id = ground (arith, zero, h) in
      let p : rest ≡ payload = ground (arith, zero, h) in
      (
        omega (arith, n, bytes.1.0, bytes.1.1.0, bytes.1.1.1.0, bytes.1.1.1.1.0),
        ap₂ ◌∷◌ z (
            bytes-of_bytes a b c d rest (bytes.1.0) (bytes.1.1.0) (bytes.1.1.1.0) (bytes.1.1.1.1.0)
            ∙ ap₂ to_be_bytes n p),
      )
  | inr other ↦ absurd (ground (arith, other, h))
]
encode-decode [] id payload bytes h = absurd (cc h)
encode-decode (m ∷ []) id payload bytes h = absurd (cc h)
encode-decode (m ∷ a ∷ []) id payload bytes h = absurd (cc h)
encode-decode (m ∷ a ∷ b ∷ []) id payload bytes h = absurd (cc h)
encode-decode (m ∷ a ∷ b ∷ c ∷ []) id payload bytes h = absurd (cc h)

-- Decoding bytes yields an id and a payload exactly if the id fits 32 bits and the bytes are the
-- encoding of the two: every other buffer is refused, and no two pairs have the same encoding.
pub decode_iff :
    (buffer : List ℕ) (id : ℕ) (payload : List ℕ)
    → All (λ b. b < 256) buffer
    → (decode_wire_format buffer ≡ ok (id, payload))
      ↔ ((id < 2 ^ 32) × (buffer ≡ encode_wire_format id payload))
decode_iff buffer id payload bytes = (
  encode-decode buffer id payload bytes,
  λ h. ap decode_wire_format (h.1) ∙ decode-encode id payload (h.0),
)
