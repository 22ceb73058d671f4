-- ===== src/Jobs/Key.antt =====
-- frontend/lib/jobs.ts: `generateIdempotencyKey`. `crypto.subtle.digest` over the encoder's bytes
-- is the browser's and is a parameter.
use yt_trending_pipeline.Prelude.{
  append-cancel_left, append-cancel_right, decimal-injective, ℕ, ◌+◌, ◌-◌, ◌*◌, ◌/◌, ◌%◌, ◌≤◌, ◌<◌,
  ◌≡◌, ◌⊎◌, inl, inr, Option, none, some, List, [], ◌∷◌, ◌++◌, Str, text, take, length, length-take,
  ltb, if◌then◌else◌, Bool-cases, ℤ, pos, int_text, decimal, arith, All, All-take,
}

-- `${n}` for a result of `parseInt`
abbrev num_text : Option ℤ → Str
num_text none = text "NaN"
num_text (some n) = int_text n

abbrev hex_digit : ℕ → ℕ
hex_digit d = if ltb d 10 then b'0' + d else b'a' + (d - 10)

-- `b.toString(16).padStart(2, "0")` for a byte
abbrev hex_byte : ℕ → Str
hex_byte b = hex_digit (b / 16) ∷ hex_digit (b % 16) ∷ []

abbrev hex : List ℕ → Str
hex [] = []
hex (b ∷ bytes) = hex_byte b ++ hex bytes

-- the text that is hashed
unfoldable pub key_input : ℕ → Str → Option ℤ → Str
key_input now region category_id = region ++ (num_text category_id ++ decimal (now / 3600000))

module _ (sha256 : Str → List ℕ) where
  unfoldable pub generate_idempotency_key : ℕ → Str → Option ℤ → Str
  generate_idempotency_key now region category_id =
      take 32 (hex (sha256 (key_input now region category_id)))

abbrev pub IsHexDigit : ℕ → Type 0
IsHexDigit c = ((b'0' ≤ c) × (c ≤ b'9')) ⊎ ((b'a' ≤ c) × (c ≤ b'f'))

abbrev pub IsByte : ℕ → Type 0
IsByte b = b < 256

hex_digit-IsHexDigit : (d : ℕ) → d < 16 → IsHexDigit (hex_digit d)
hex_digit-IsHexDigit d h = elim (Bool-cases (ltb d 10)) [
  | inl small ↦ rw small (inl (omega arith, ground arith))
  | inr big ↦ rw big (inr (omega arith, omega arith))
]

hex-IsHexDigit : (bytes : List ℕ) → All IsByte bytes → All IsHexDigit (hex bytes)
hex-IsHexDigit [] h = tt
hex-IsHexDigit (b ∷ bytes) h = (
  hex_digit-IsHexDigit (b / 16) (omega arith),
  (hex_digit-IsHexDigit (b % 16) (omega arith), hex-IsHexDigit bytes h.1),
)

length-hex : (bytes : List ℕ) → length (hex bytes) ≡ 2 * length bytes
length-hex [] = omega arith
length-hex (b ∷ bytes) = omega (arith, length-hex bytes)

-- With a digest of 32 bytes the key is 32 hexadecimal digits, whatever the time, the region and
-- the category.
pub generate_idempotency_key-IsHexDigit :
    (sha256 : Str → List ℕ)
    → ((s : Str) → (length (sha256 s) ≡ 32) × All IsByte (sha256 s))
    → (now : ℕ) (region : Str) (category_id : Option ℤ)
    → (length (generate_idempotency_key sha256 now region category_id) ≡ 32)
      × All IsHexDigit (generate_idempotency_key sha256 now region category_id)
unfolding generate_idempotency_key
generate_idempotency_key-IsHexDigit sha256 digest now region category_id =
    let s = key_input now region category_id in
    let bytes = digest s in
    (
      omega (arith, length-take 32 (hex (sha256 s)), length-hex (sha256 s), bytes.0),
      All-take IsHexDigit 32 (hex (sha256 s)) (hex-IsHexDigit (sha256 s) bytes.1),
    )

-- In one hour and for one region, equal texts are of equal categories: two categories never hash
-- the same text.
key_input-injective :
    (now : ℕ) (region : Str) (m n : ℕ)
    → key_input now region (some (pos m)) ≡ key_input now region (some (pos n))
    → m ≡ n
unfolding key_input int_text
key_input-injective now region m n h =
    let hour = decimal (now / 3600000) in
    decimal-injective m n (
      append-cancel_right (decimal m) (decimal n) hour
        (append-cancel_left region (decimal m ++ hour) (decimal n ++ hour) h))
