-- ===== src/MantaPay/AssetId.antt =====
-- pallets/manta-pay/src/impl_pay.rs, `id_from_field` and `field_from_id`: asset ids as the 32 bytes
-- of a field element, little end first.
pub mod Examples
use hackathon_parity_eu.Prelude.{
  ℕ, zero, suc, ◌+◌, ◌*◌, ◌/◌, ◌%◌, ◌^◌, ◌<◌, ◌≡◌, refl, ap, true, Option, none, some, [], ◌∷◌,
  ◌++◌, arith, length, take, drop, replicate, All, Bytes, beq, bytes_key, if◌then◌else◌,
  take-append-drop, length-take, Bool-cases, inl, inr, subst, sym, ◌∙◌, ap₂, bytes_discrete,
  ℕ_discrete,
}

-- `to_le_bytes` and `from_le_bytes`, at any width.
unfoldable pub to_le_bytes : ℕ → ℕ → Bytes
to_le_bytes zero n = []
to_le_bytes (suc k) n = n % 256 ∷ to_le_bytes k (n / 256)

unfoldable pub from_le_bytes : Bytes → ℕ
from_le_bytes [] = 0
from_le_bytes (b ∷ bs) = b + 256 * from_le_bytes bs

unfoldable pub id_from_field : Bytes → Option ℕ
unfolding to_le_bytes from_le_bytes
id_from_field id =
    if beq (to_le_bytes 16 0) (drop 16 id) then some (from_le_bytes (take 16 id)) else none

pub field_from_id : ℕ → Bytes
unfolding to_le_bytes
field_from_id id = to_le_bytes 16 id ++ replicate 16 0

length-to_le_bytes : (k n : ℕ) → length (to_le_bytes k n) ≡ k
unfolding to_le_bytes
length-to_le_bytes zero n = refl
length-to_le_bytes (suc k) n = ap suc (length-to_le_bytes k (n / 256))

-- The bytes of a number below 256 ^ k give it back; the bound is by the digits.
abbrev pub Fits : ℕ → ℕ → Type 0
Fits zero n = n ≡ 0
Fits (suc k) n = Fits k (n / 256)

pub from-to_le_bytes : (k n : ℕ) → Fits k n → from_le_bytes (to_le_bytes k n) ≡ n
unfolding to_le_bytes from_le_bytes
from-to_le_bytes zero n h = omega arith
from-to_le_bytes (suc k) n h = omega (arith, from-to_le_bytes k (n / 256) h)

to-from_le_bytes :
    (bs : Bytes) → All (λ b. b < 256) bs → to_le_bytes (length bs) (from_le_bytes bs) ≡ bs
unfolding to_le_bytes from_le_bytes
to-from_le_bytes [] h = refl
to-from_le_bytes (b ∷ bs) h =
    let low : (b + 256 * from_le_bytes bs) % 256 ≡ b = omega arith in
    let high : (b + 256 * from_le_bytes bs) / 256 ≡ from_le_bytes bs = omega arith in
    rw (low, high, to-from_le_bytes bs h.1)

pub Fits-128 : (n : ℕ) → n < 2 ^ 128 → Fits 16 n
Fits-128 n h = omega arith

All-take : (k : ℕ) (bs : Bytes) → All (λ b. b < 256) bs → All (λ b. b < 256) (take k bs)
All-take zero bs h = tt
All-take (suc k) [] h = tt
All-take (suc k) (b ∷ bs) h = (h.0, All-take k bs h.1)

-- An asset id below 2 ^ 128 comes back from its field.
pub id_from_field-field_from_id :
    (id : ℕ) → id < 2 ^ 128 → id_from_field (field_from_id id) ≡ some id
unfolding id_from_field field_from_id bytes_discrete ℕ_discrete
id_from_field-field_from_id id h = ap some (from-to_le_bytes 16 id (Fits-128 id h))

beq→eq : (a b : Bytes) → beq a b ≡ true → a ≡ b
beq→eq a b h = ground arith

zero_bytes : to_le_bytes 16 0 ≡ replicate 16 0
unfolding to_le_bytes
zero_bytes = refl

-- A field of 32 bytes that stands for an asset id is the field of that id.
pub field_from_id-id_from_field :
    (field : Bytes) (id : ℕ)
    → length field ≡ 32
    → All (λ b. b < 256) field
    → id_from_field field ≡ some id
    → field_from_id id ≡ field
unfolding id_from_field field_from_id
field_from_id-id_from_field field id size bytes h =
    elim (Bool-cases (beq (to_le_bytes 16 0) (drop 16 field))) [
      | inl zeros ↦
          let half : length (take 16 field) ≡ 16 = omega (arith, length-take 16 field) in
          let low : to_le_bytes 16 (from_le_bytes (take 16 field)) ≡ take 16 field =
            subst (λ k. to_le_bytes k (from_le_bytes (take 16 field)) ≡ take 16 field) half
              (to-from_le_bytes (take 16 field) (All-take 16 field bytes)) in
          let same : id ≡ from_le_bytes (take 16 field) = ground arith in
          let high : replicate 16 0 ≡ drop 16 field = sym zero_bytes ∙ beq→eq _ _ zeros in
          ap (λ n. to_le_bytes 16 n ++ replicate 16 0) same
          ∙ ap₂ ◌++◌ low high
          ∙ take-append-drop 16 field
      | inr other ↦ absurd (ground arith)
    ]
