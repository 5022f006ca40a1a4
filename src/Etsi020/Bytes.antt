-- ===== src/Etsi020/Bytes.antt =====
-- The base64 text of bytes decodes to the bytes.
use transeuroogs_kms.Common.{
  ℕ, ◌+◌, ◌*◌, ◌/◌, ◌%◌, ◌<◌, ◌≡◌, ◌∙◌, ap, refl, true, false, some, List, [], ◌∷◌, All, arith,
  nat_eq,
}
use transeuroogs_kms.Etsi020.Base64.{
  sextet_char, char_sextet, encode, decode, full_group, two_bytes, one_byte, last_group,
}

pub char_sextet_char : (n : ℕ) → n < 64 → char_sextet (sextet_char n) ≡ some n
unfolding char_sextet sextet_char
char_sextet_char n h = ground arith

sextet_char_ne : (n : ℕ) → n < 64 → nat_eq (sextet_char n) 61 ≡ false
unfolding sextet_char
sextet_char_ne n h = ground arith

decode_group :
    (p q r s : ℕ) (t : List ℕ)
    → nat_eq s 61 ≡ false
    → decode (p ∷ q ∷ r ∷ s ∷ t)
      ≡ full_group (char_sextet p) (char_sextet q) (char_sextet r) (char_sextet s) (decode t)
unfolding decode last_group
decode_group p q r s [] h = ground arith
decode_group p q r s (e ∷ t) h = refl

-- Three bytes from the four groups of six bits that hold them.
byte_one : (a b : ℕ) → a < 256 → b < 256 → a / 4 * 4 + (a % 4 * 16 + b / 16) / 16 ≡ a
byte_one a b h k = omega arith

two_end : (a b : ℕ) → a < 256 → b < 256 → (a % 4 * 16 + b / 16) % 16 * 16 + b % 16 * 4 / 4 ≡ b
two_end a b h k = omega arith

byte_two :
    (a b c : ℕ)
    → a < 256
    → b < 256
    → c < 256
    → (a % 4 * 16 + b / 16) % 16 * 16 + (b % 16 * 4 + c / 64) / 4 ≡ b
byte_two a b c h k l = omega arith

byte_three : (b c : ℕ) → b < 256 → c < 256 → (b % 16 * 4 + c / 64) % 4 * 64 + c % 64 ≡ c
byte_three b c h k = omega arith

full_group_lem :
    (w x y z : ℕ) (rest : List ℕ)
    → w < 64
    → x < 64
    → y < 64
    → z < 64
    → full_group
        (char_sextet (sextet_char w))
        (char_sextet (sextet_char x))
        (char_sextet (sextet_char y))
        (char_sextet (sextet_char z))
        (some rest)
      ≡ some ((w * 4 + x / 16) ∷ (x % 16 * 16 + y / 4) ∷ (y % 4 * 64 + z) ∷ rest)
full_group_lem w x y z rest hw hx hy hz =
    rw (char_sextet_char w hw, char_sextet_char x hx, char_sextet_char y hy, char_sextet_char z hz)
      (unfold full_group in refl)

two_bytes_lem :
    (w x y : ℕ)
    → w < 64
    → x < 64
    → y < 64
    → nat_eq (y % 4) 0 ≡ true
    → two_bytes
        (char_sextet (sextet_char w))
        (char_sextet (sextet_char x))
        (char_sextet (sextet_char y))
      ≡ some ((w * 4 + x / 16) ∷ (x % 16 * 16 + y / 4) ∷ [])
two_bytes_lem w x y hw hx hy end =
    rw (char_sextet_char w hw, char_sextet_char x hx, char_sextet_char y hy)
      (unfold two_bytes in rw end refl)

one_byte_lem :
    (w x : ℕ)
    → w < 64
    → x < 64
    → nat_eq (x % 16) 0 ≡ true
    → one_byte (char_sextet (sextet_char w)) (char_sextet (sextet_char x))
      ≡ some ((w * 4 + x / 16) ∷ [])
one_byte_lem w x hw hx end =
    rw (char_sextet_char w hw, char_sextet_char x hx) (unfold one_byte in rw end refl)

decode_one : (p q : ℕ) → decode (p ∷ q ∷ 61 ∷ 61 ∷ []) ≡ one_byte (char_sextet p) (char_sextet q)
unfolding decode last_group
decode_one p q = refl

decode_two :
    (p q r : ℕ)
    → nat_eq r 61 ≡ false
    → decode (p ∷ q ∷ r ∷ 61 ∷ []) ≡ two_bytes (char_sextet p) (char_sextet q) (char_sextet r)
unfolding decode last_group
decode_two p q r h = rw h refl

-- Encoding bytes and decoding the text gives the bytes back.
pub decode-encode : (bs : List ℕ) → All (λ b. b < 256) bs → decode (encode bs) ≡ some bs
unfolding encode
decode-encode [] h = unfold decode in refl
decode-encode (a ∷ []) h =
    let w = a / 4 in
    let x = a % 4 * 16 in
    decode_one (sextet_char w) (sextet_char x)
    ∙ one_byte_lem w x (omega (arith, h.0)) (omega (arith, h.0)) (ground arith)
    ∙ ap (λ n. some (n ∷ [])) (omega (arith, h.0))
decode-encode (a ∷ b ∷ []) h =
    let w = a / 4 in
    let x = a % 4 * 16 + b / 16 in
    let y = b % 16 * 4 in
    decode_two (sextet_char w) (sextet_char x) (sextet_char y) (sextet_char_ne y (omega arith))
    ∙ two_bytes_lem w x y (omega (arith, h.0)) (omega (arith, h.0, h.1.0)) (omega arith)
        (ground arith)
    ∙ cc (byte_one a b h.0 h.1.0, two_end a b h.0 h.1.0)
decode-encode (a ∷ b ∷ c ∷ rest) h =
    let w = a / 4 in
    let x = a % 4 * 16 + b / 16 in
    let y = b % 16 * 4 + c / 64 in
    let z = c % 64 in
    decode_group (sextet_char w) (sextet_char x) (sextet_char y) (sextet_char z) (encode rest)
      (sextet_char_ne z (omega arith))
    ∙ ap
        (full_group (char_sextet (sextet_char w)) (char_sextet (sextet_char x))
          (char_sextet (sextet_char y)) (char_sextet (sextet_char z)))
        (decode-encode rest h.1.1.1)
    ∙ full_group_lem w x y z rest (omega (arith, h.0)) (omega (arith, h.1.0))
        (omega (arith, h.1.1.0)) (omega arith)
    ∙ cc (byte_one a b h.0 h.1.0, byte_two a b c h.0 h.1.0 h.1.1.0, byte_three b c h.1.0 h.1.1.0)
