-- ===== src/Objects/Hex.antt =====
-- `ObjectId::to_string`: the name of an object's file.
use zerostash.Prelude.{ℕ, ◌*◌, ◌/◌, ◌%◌, ◌<◌, ◌≡◌, [], ◌∷◌, length, arith, refl, ap₂}
use zerostash.Objects.{Bytes, ObjectId, hex_digit, to_string}

abbrev pub AreBytes : Bytes → Type 0
AreBytes [] = Unit
AreBytes (b ∷ rest) = (b < 256) × AreBytes rest

-- Two characters for each byte.
pub length-to_string : (id : ObjectId) → length (to_string id) ≡ 2 * length id
unfolding to_string
length-to_string [] = refl
length-to_string (b ∷ rest) = omega (arith, length-to_string rest)

hex_digit-injective : (a b : ℕ) → hex_digit a ≡ hex_digit b → a ≡ b
unfolding hex_digit
hex_digit-injective a b e = ground arith

byte-injective :
    (a b : ℕ)
    → hex_digit (a / 16) ≡ hex_digit (b / 16)
    → hex_digit (a % 16) ≡ hex_digit (b % 16)
    → a ≡ b
byte-injective a b h l =
    omega (arith, hex_digit-injective (a / 16) (b / 16) h, hex_digit-injective (a % 16) (b % 16) l)

-- Different ids have different file names.
pub to_string-injective : (a b : ObjectId) → to_string a ≡ to_string b → a ≡ b
unfolding to_string
to_string-injective [] [] e = refl
to_string-injective [] (y ∷ b) e = cc
to_string-injective (x ∷ a) [] e = cc
to_string-injective (x ∷ a) (y ∷ b) e =
    ap₂ ◌∷◌ (byte-injective x y (cc) (cc)) (to_string-injective a b (cc))
