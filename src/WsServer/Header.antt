-- ===== src/WsServer/Header.antt =====
-- The fixed header that sendHdr of wsserver.go puts before a message, and a reader of it.
use native.Mathlib.Nat.{pow-suc}
use gobinace_qaggr_qrecv.Prelude.{
  ℕ, zero, suc, ◌+◌, ◌-◌, ◌*◌, ◌/◌, ◌%◌, ◌^◌, ◌<◌, ℤ, pos, negsuc, List, [], ◌∷◌, ◌++◌, ◌≡◌, refl,
  ap, ◌∙◌, arith, length, length-append, take, drop, if◌then◌else◌, ltb,
}

abbrev pub Bytes : Type 0
Bytes = List ℕ

pub record MessageHeaderFixed : Type 0 where
  pub version : ℤ
  pub compress : ℤ
  pub period : ℤ
  pub timestamp : ℤ
  pub post_timestamp : ℤ

-- binary.Write of an unsigned number of `width` bytes, big-endian.
unfoldable pub write_be : ℕ → ℕ → Bytes
write_be zero n = []
write_be (suc width) n = write_be width (n / 256) ++ n % 256 ∷ []

-- The two's complement of a number in `m` values.
unfoldable pub wrap : ℕ → ℤ → ℕ
wrap m (pos n) = n % m
wrap m (negsuc n) = m - 1 - n % m

unfoldable pub write_int8 : ℤ → Bytes
write_int8 z = write_be 1 (wrap 256 z)

unfoldable pub write_int64 : ℤ → Bytes
write_int64 z = write_be 8 (wrap 18446744073709551616 z)

-- The bytes of the header, in the order of its fields.
unfoldable pub encode_header : MessageHeaderFixed → Bytes
encode_header h =
    write_int8 h.version
    ++ (write_int8 h.compress
        ++ (write_int64 h.period ++ (write_int64 h.timestamp ++ write_int64 h.post_timestamp)))

-- The reader: a big-endian number, and the integer that a number below `m` stands for.
abbrev pub read_be : ℕ → Bytes → ℕ
read_be acc [] = acc
read_be acc (b ∷ bs) = read_be (acc * 256 + b) bs

abbrev pub signed : ℕ → ℕ → ℤ
signed half n = if ltb n half then pos n else negsuc (half + half - 1 - n)

read_be-append :
    (acc : ℕ) (xs : Bytes) (b : ℕ) → read_be acc (xs ++ b ∷ []) ≡ read_be acc xs * 256 + b
read_be-append acc [] b = refl
read_be-append acc (x ∷ xs) b = read_be-append (acc * 256 + x) xs b

quotient_below : (width n : ℕ) → n < 256 ^ suc width → n / 256 < 256 ^ width
quotient_below width n h =
    let e : 256 ^ suc width ≡ 256 ^ width * 256 = pow-suc 256 width in omega arith

read_be-write_be : (width n : ℕ) → n < 256 ^ width → read_be 0 (write_be width n) ≡ n
unfolding write_be
read_be-write_be zero n h = omega arith
read_be-write_be (suc width) n h =
    read_be-append 0 (write_be width (n / 256)) (n % 256)
    ∙ ap (λ k. k * 256 + n % 256) (read_be-write_be width (n / 256) (quotient_below width n h))
    ∙ omega arith

length-write_be : (width n : ℕ) → length (write_be width n) ≡ width
unfolding write_be
length-write_be zero n = refl
length-write_be (suc width) n =
    length-append (write_be width (n / 256)) _ ∙ omega (arith, length-write_be width (n / 256))

-- The numbers from -half on and below half.
abbrev pub InRange : ℕ → ℤ → Type 0
InRange half (pos n) = n < half
InRange half (negsuc n) = n < half

below_modulus : (n m : ℕ) → n < m → n % m ≡ n
below_modulus n m h = grind arith

signed-wrap : (half : ℕ) (z : ℤ) → InRange half z → signed half (wrap (half + half) z) ≡ z
unfolding wrap
signed-wrap half (pos n) h = rw (below_modulus n (half + half) (omega arith)) (ground arith)
signed-wrap half (negsuc n) h = rw (below_modulus n (half + half) (omega arith)) (ground arith)

wrap-bound : (m : ℕ) (z : ℤ) → 0 < m → wrap m z < m
unfolding wrap
wrap-bound m (pos n) h = grind arith
wrap-bound m (negsuc n) h = omega arith

read_int8-write_int8 : (z : ℤ) → InRange 128 z → signed 128 (read_be 0 (write_int8 z)) ≡ z
unfolding write_int8
read_int8-write_int8 z h =
    ap (signed 128) (read_be-write_be 1 (wrap 256 z) (wrap-bound 256 z (omega arith)))
    ∙ signed-wrap 128 z h

read_int64-write_int64 :
    (z : ℤ)
    → InRange 9223372036854775808 z
    → signed 9223372036854775808 (read_be 0 (write_int64 z)) ≡ z
unfolding write_int64
read_int64-write_int64 z h =
    ap (signed 9223372036854775808) (
      read_be-write_be 8 (wrap 18446744073709551616 z)
        (wrap-bound 18446744073709551616 z (omega arith)))
    ∙ signed-wrap 9223372036854775808 z h

-- What a receiver of a framed message reads: the five fields at their places, and the data.
abbrev field : ℕ → ℕ → Bytes → ℕ
field at width bs = read_be 0 (take width (drop at bs))

abbrev pub decode_header : Bytes → MessageHeaderFixed × Bytes
decode_header bs = (
  record {
    version = signed 128 (field 0 1 bs);
    compress = signed 128 (field 1 1 bs);
    period = signed 9223372036854775808 (field 2 8 bs);
    timestamp = signed 9223372036854775808 (field 10 8 bs);
    post_timestamp = signed 9223372036854775808 (field 18 8 bs);
  },
  drop 26 bs,
)

abbrev pub IsHeader : MessageHeaderFixed → Type 0
IsHeader h =
    InRange 128 h.version
    × InRange 128 h.compress
    × InRange 9223372036854775808 h.period
    × InRange 9223372036854775808 h.timestamp
    × InRange 9223372036854775808 h.post_timestamp

header_ext :
    (h g : MessageHeaderFixed)
    → h.version ≡ g.version
    → h.compress ≡ g.compress
    → h.period ≡ g.period
    → h.timestamp ≡ g.timestamp
    → h.post_timestamp ≡ g.post_timestamp
    → h ≡ g
header_ext h g a b c d e = cc

-- A receiver of a framed message reads back the fields and the data, if the fields are numbers of
-- their types; the header has 26 bytes.
pub decode_header-encode_header :
    (h : MessageHeaderFixed) (body : Bytes)
    → IsHeader h
    → (decode_header (encode_header h ++ body) ≡ (h, body)) × (length (encode_header h) ≡ 26)
unfolding encode_header write_int8 write_int64 write_be
decode_header-encode_header h body r = (
  ap (λ g. (g, body))
      (header_ext _ h (read_int8-write_int8 h.version r.0) (read_int8-write_int8 h.compress r.1)
        (read_int64-write_int64 h.period r.2) (read_int64-write_int64 h.timestamp r.3)
        (read_int64-write_int64 h.post_timestamp r.4)),
  refl,
)
