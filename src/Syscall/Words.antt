-- ===== src/Syscall/Words.antt =====
-- The words of syscall arguments: flags, i32 values and application identities of
-- xous/xous-rs/src/definitions.rs and its memoryflags.rs.
use beet_core.Common.{
  ℕ, ◌+◌, ◌-◌, ◌*◌, ◌/◌, ◌%◌, ◌^◌, ◌<◌, ◌≡◌, refl, arith, ltb, if◌then◌else◌, ap,
}

pub record MemoryFlags : Type 0 where
  pub bits : ℕ

-- `raw & 0b0111_1101`: bit 0 and bits 2 to 6
unfoldable pub mask : ℕ → ℕ
mask raw = raw % 2 + raw / 4 % 32 * 4

unfoldable pub from_bits : ℕ → MemoryFlags
from_bits raw = record { bits = mask raw }

-- The flags have no bits but the defined ones.
abbrev pub IsFlags : MemoryFlags → Type 0
IsFlags flags = mask flags.bits ≡ flags.bits

pub from_bits-IsFlags : (raw : ℕ) → IsFlags (from_bits raw)
unfolding from_bits mask
from_bits-IsFlags raw = omega arith

pub from_bits-bits : (flags : MemoryFlags) → IsFlags flags → from_bits flags.bits ≡ flags
unfolding from_bits
from_bits-bits flags h = ap (λ b. record { bits = b }) h

-- An i32: `pos n` is n, and `negsuc n` is -(n + 1).
pub data ℤ : Type 0 where
  pos : ℕ → ℤ
  negsuc : ℕ → ℤ

-- `exit_code as usize`, which extends the sign
unfoldable pub i32_number : ℤ → ℕ
i32_number (pos n) = n
i32_number (negsuc n) = 2 ^ 64 - 1 - n

-- `a1 as i32`
unfoldable pub i32_from : ℕ → ℤ
i32_from word =
    let low = word % 2 ^ 32 in if ltb low (2 ^ 31) then pos low else negsuc (2 ^ 32 - 1 - low)

abbrev pub IsI32 : ℤ → Type 0
IsI32 (pos n) = n < 2 ^ 31
IsI32 (negsuc n) = n < 2 ^ 31

pub i32_from-i32_number : (z : ℤ) → IsI32 z → i32_from (i32_number z) ≡ z
unfolding i32_from i32_number
i32_from-i32_number (pos n) h = ground arith
i32_from-i32_number (negsuc n) h = ground arith

pub i32_from-IsI32 : (word : ℕ) → IsI32 (i32_from word)
unfolding i32_from
i32_from-IsI32 word = ground arith

-- Four bytes of an `AppId`, the lowest first.
pub record Bytes4 : Type 0 where
  pub b0 : ℕ
  pub b1 : ℕ
  pub b2 : ℕ
  pub b3 : ℕ

-- `AppId([u8; 16])`
pub record AppId : Type 0 where
  pub bytes0 : Bytes4
  pub bytes4 : Bytes4
  pub bytes8 : Bytes4
  pub bytes12 : Bytes4

-- `u32::from_le_bytes` and `to_le_bytes`
unfoldable pub from_le_bytes : Bytes4 → ℕ
from_le_bytes b = b.b0 + 256 * (b.b1 + 256 * (b.b2 + 256 * b.b3))

unfoldable pub to_le_bytes : ℕ → Bytes4
to_le_bytes w = record {
  b0 = w % 256;
  b1 = w / 256 % 256;
  b2 = w / 65536 % 256;
  b3 = w / 16777216 % 256;
}

pub record IsBytes4 (b : Bytes4) : Type 0 where
  pub byte0 : b.b0 < 256
  pub byte1 : b.b1 < 256
  pub byte2 : b.b2 < 256
  pub byte3 : b.b3 < 256

pub record IsAppId (id : AppId) : Type 0 where
  pub at0 : IsBytes4 id.bytes0
  pub at4 : IsBytes4 id.bytes4
  pub at8 : IsBytes4 id.bytes8
  pub at12 : IsBytes4 id.bytes12

-- The words of an identity as a u32 each, from usize words
unfoldable pub app_id_from : ℕ → ℕ → ℕ → ℕ → AppId
app_id_from w0 w1 w2 w3 = record {
  bytes0 = to_le_bytes (w0 % 2 ^ 32);
  bytes4 = to_le_bytes (w1 % 2 ^ 32);
  bytes8 = to_le_bytes (w2 % 2 ^ 32);
  bytes12 = to_le_bytes (w3 % 2 ^ 32);
}

pub to_le_bytes-from_le_bytes :
    (b : Bytes4) → IsBytes4 b → to_le_bytes (from_le_bytes b % 2 ^ 32) ≡ b
unfolding to_le_bytes from_le_bytes
to_le_bytes-from_le_bytes b v =
    let e0 : (b.b0 + 256 * (b.b1 + 256 * (b.b2 + 256 * b.b3))) % 2 ^ 32 % 256 ≡ b.b0 =
      omega (arith, v.byte0, v.byte1, v.byte2, v.byte3) in
    let e1 : (b.b0 + 256 * (b.b1 + 256 * (b.b2 + 256 * b.b3))) % 2 ^ 32 / 256 % 256 ≡ b.b1 =
      omega (arith, v.byte0, v.byte1, v.byte2, v.byte3) in
    let e2 : (b.b0 + 256 * (b.b1 + 256 * (b.b2 + 256 * b.b3))) % 2 ^ 32 / 65536 % 256 ≡ b.b2 =
      omega (arith, v.byte0, v.byte1, v.byte2, v.byte3) in
    let e3 : (b.b0 + 256 * (b.b1 + 256 * (b.b2 + 256 * b.b3))) % 2 ^ 32 / 16777216 % 256 ≡ b.b3 =
      omega (arith, v.byte0, v.byte1, v.byte2, v.byte3) in
    rw e0 (rw e1 (rw e2 (rw e3 refl)))

pub to_le_bytes-IsBytes4 : (w : ℕ) → IsBytes4 (to_le_bytes w)
unfolding to_le_bytes
to_le_bytes-IsBytes4 w = record {
  byte0 = omega arith;
  byte1 = omega arith;
  byte2 = omega arith;
  byte3 = omega arith;
}

pub app_id_from-IsAppId : (w0 w1 w2 w3 : ℕ) → IsAppId (app_id_from w0 w1 w2 w3)
unfolding app_id_from
app_id_from-IsAppId w0 w1 w2 w3 = record {
  at0 = to_le_bytes-IsBytes4 (w0 % 2 ^ 32);
  at4 = to_le_bytes-IsBytes4 (w1 % 2 ^ 32);
  at8 = to_le_bytes-IsBytes4 (w2 % 2 ^ 32);
  at12 = to_le_bytes-IsBytes4 (w3 % 2 ^ 32);
}

-- `app_id.into()`, the four words
unfoldable pub app_id_words : AppId → ℕ × ℕ × ℕ × ℕ
app_id_words id = (
  from_le_bytes id.bytes0,
  from_le_bytes id.bytes4,
  from_le_bytes id.bytes8,
  from_le_bytes id.bytes12,
)
